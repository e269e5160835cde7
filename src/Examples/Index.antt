-- ===== src/Examples/Index.antt =====
-- A tree whose keys are bytes, on pages of 64 bytes.
use wasm_dbms.Prelude.{
  ℕ, ◌≤◌, ◌≡◌, inl, inr, refl, ap, arith, replicate, List, [], ◌∷◌, ◌++◌, length, true, false, none,
  some, ltb,
}
use wasm_dbms.Prelude.Bytes.{to_le_bytes, from_le_bytes}
use wasm_dbms.Prelude.Result.{ok, err}
use wasm_dbms.Encode.{MemoryResult, fixed, decode_error, too_short}
use wasm_dbms.Registry.Record.{RecordAddress}
use wasm_dbms.Index.Key.{Key, IsOrder}
use wasm_dbms.Index.Node.{
  Entry, BTreeNode, InternalNodeBody, internal, NodeHeader, serialize, deserialize,
}
use wasm_dbms.Index.Node.Codec.{IsNode, deserialize-serialize, IsInternalEntry}
use wasm_dbms.Index.Split.{sum, abs_diff, byte_balanced_split_index}
use wasm_dbms.Index.Split.Balance.{IsSplit, right_half, byte_balanced_split_index_lem}
use wasm_dbms.Index.Split.Halves.{byte_balanced_split_index_half}
use wasm_dbms.Index.View.{NodeView, parse, child_for}
use wasm_dbms.Index.View.Child.{IsSorted, child_for-find_child}
use wasm_dbms.Index.Tree.{Promotion, find_child, promote_body, insert_entry}
use wasm_dbms.Index.Tree.Promote.{rerouted, find_child-promote_body}
use wasm_dbms.Index.Tree.Leaf.{insert_entry_lem}

abbrev decode_byte : List ℕ → MemoryResult ℕ
decode_byte [] = err (decode_error too_short)
decode_byte (b ∷ bytes) = ok b

abbrev bytes : Key ℕ
bytes = record {
  e = record {
    data_size = fixed 1;
    alignment = 1;
    encode = λ k. k ∷ [];
    decode = decode_byte;
    size = λ k. 1;
  };
  lt = ltb;
}

bytes-IsOrder : IsOrder bytes
bytes-IsOrder = record {
  lt_irrefl = λ a. ground arith;
  lt_trans = λ a b c ab bc. ground arith;
  lt_total = λ a b ab ba. ground arith;
}

-- Separators 4 and 9 over the pages 11, 12 and 13.
abbrev routes : InternalNodeBody ℕ
routes = record {
  entries = record { key = 4; target = 11 } ∷ record { key = 9; target = 12 } ∷ [];
  rightmost_child = 13;
}

abbrev header : NodeHeader
header = record { parent_page = none; num_entries = 2 }

abbrev node : BTreeNode ℕ
node = record { page = 10; header = header; body = internal routes; dirty = true }

entry_lem :
    (k t : ℕ)
    → from_le_bytes (to_le_bytes 4 t) ≡ t
    → IsInternalEntry bytes (record { key = k; target = t })
entry_lem k t h = record {
  key_fits = omega arith;
  decode_key = refl;
  target_length = refl;
  decode_target_lem = ap ok h;
}

node-IsNode : IsNode bytes 64 node
node-IsNode = record {
  parent_lem = tt;
  count_fits = omega arith;
  is_body = (refl, (entry_lem 4 11 refl, (entry_lem 9 12 refl, tt)), omega arith, omega arith);
}

deserialize-serialize_example :
    (buf : List ℕ) × (serialize bytes node 64 ≡ ok buf)
    × (length buf ≡ 64)
    × (deserialize bytes 10 buf ≡ ok (record node { dirty = false }))
deserialize-serialize_example = deserialize-serialize bytes node 64 node-IsNode

abbrev stored : List ℕ
stored =
    (0 ∷ 255 ∷ 255 ∷ 255 ∷ 255 ∷ 2 ∷ 0 ∷ 13 ∷ 0 ∷ 0 ∷ 0 ∷ [])
    ++ ((1 ∷ 0 ∷ 4 ∷ 11 ∷ 0 ∷ 0 ∷ 0 ∷ []) ++ ((1 ∷ 0 ∷ 9 ∷ 12 ∷ 0 ∷ 0 ∷ 0 ∷ []) ++ replicate 39 0))

stored_lem : serialize bytes node 64 ≡ ok stored
unfolding serialize
stored_lem = refl

child_for-find_child_example :
    (view : NodeView) × (parse stored ≡ ok view)
    × (child_for bytes 4 view ≡ ok (some (find_child bytes routes 4)))
child_for-find_child_example =
    child_for-find_child bytes bytes-IsOrder 10 header routes true 64 stored 4 node-IsNode
      (omega arith) ((refl, tt), (tt, tt)) stored_lem

find_child_test : find_child bytes routes 4 ≡ 12
unfolding find_child
find_child_test = refl

-- The page 12 was split at the key 7.
abbrev promotion : Promotion ℕ
promotion = record { key = 7; left_page = 12; right_page = 14 }

find_child-promote_body_example :
    (body' : InternalNodeBody ℕ) × (promote_body bytes promotion routes ≡ ok body')
    × (find_child bytes body' 8 ≡ rerouted bytes promotion 8 (find_child bytes routes 8))
find_child-promote_body_example =
    find_child-promote_body bytes promotion bytes-IsOrder routes 8
      (inr (refl, inl (refl, refl, refl)))

abbrev sizes : List ℕ
sizes = 12 ∷ 20 ∷ 9 ∷ 20 ∷ []

byte_balanced_split_index_lem_example :
    (pre' : List ℕ) × (size' : ℕ) × (post' : List ℕ) × (byte_balanced_split_index sizes 15 64 false
      ≡ some (length pre'))
    × (sizes ≡ pre' ++ (size' ∷ post'))
    × IsSplit 15 64 false pre' size' post'
    × (abs_diff (sum pre') (right_half false size' post') ≤ 37)
byte_balanced_split_index_lem_example =
    byte_balanced_split_index_lem 15 64 false sizes (12 ∷ []) 20 (9 ∷ 20 ∷ []) refl (record {
      left_nonempty = omega arith;
      right_nonempty = omega arith;
      left_fits = omega arith;
      right_fits = omega arith;
    })

byte_balanced_split_index_half_example :
    (pre : List ℕ) × (size : ℕ) × (post : List ℕ) × (byte_balanced_split_index sizes 15 64 false
      ≡ some (length pre))
    × (sizes ≡ pre ++ (size ∷ post))
    × IsSplit 15 64 false pre size post
byte_balanced_split_index_half_example =
    byte_balanced_split_index_half sizes 15 64 20 (omega arith) (omega arith) (omega arith)
      (omega arith)

abbrev address : RecordAddress
address = record { page = 3; offset = 32 }

abbrev entries : List (Entry ℕ RecordAddress)
entries = record { key = 2; target = address } ∷ record { key = 6; target = address } ∷ []

insert_entry_lem_example :
    (front back : List (Entry ℕ RecordAddress)) × (entries ≡ front ++ back)
    × (insert_entry bytes 5 address entries
        ≡ front ++ (record { key = 5; target = address } ∷ back))
    × IsSorted bytes (insert_entry bytes 5 address entries)
insert_entry_lem_example =
    insert_entry_lem bytes bytes-IsOrder 5 address entries ((refl, tt), (tt, tt))
