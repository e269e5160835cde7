-- ===== src/Engine/Drift.antt =====
-- The drift check: whether the stored schema is the compiled one, with its answer cached.
use wasm_dbms.Prelude.{
  ℕ, ◌≡◌, refl, sym, ap, ◌∙◌, Option, none, some, Bool, true, false, ◌==◌, if◌then◌else◌, not,
}
use wasm_dbms.Prelude.{Bool-cases, Option-cases, inl, inr, ◌⊎◌, ==_iff}
use wasm_dbms.Prelude.Result.{ok, err}
use wasm_dbms.Engine.{DbmsContext, Database, DatabaseSchema, Run, pure, raise, ◌>>=◌, schema_drift}

module _ {P R V F : Type 0} where
  unfoldable pub cached_drift_for : ℕ → DbmsContext P R V F → Option Bool
  cached_drift_for compiled_hash c = elim c.drift [
    | none ↦ none
    | some (hash, drifted) ↦ if hash == compiled_hash then some drifted else none
  ]

  unfoldable pub set_drift : ℕ → Bool → DbmsContext P R V F → DbmsContext P R V F
  set_drift compiled_hash value c = record c { drift = some (compiled_hash, value) }

  unfoldable pub clear_drift : DbmsContext P R V F → DbmsContext P R V F
  clear_drift c = record c { drift = none }

  module _ {E : Type 0} (schema : DatabaseSchema P R V F E) where
    -- The check, with the migration guard and the cached answer.
    abbrev check_from : Bool → Option Bool → Run (Database P R V F) E Bool
    unfolding set_drift
    check_from true cached d = (ok false, d)
    check_from false (some cached) d = (ok cached, d)
    check_from false none d =
        let drifted = not (schema.schema_hash d.ctx.schema_registry == schema.compiled_hash) in
        (ok drifted, record d { ctx = set_drift schema.compiled_hash drifted d.ctx })

    unfoldable pub drift_check : Run (Database P R V F) E Bool
    unfolding cached_drift_for check_from
    drift_check d = check_from d.ctx.migrating (cached_drift_for schema.compiled_hash d.ctx) d

    unfoldable pub ensure_no_drift : Run (Database P R V F) E (Unit {0})
    unfolding drift_check
    ensure_no_drift = drift_check >>= λ drifted. if drifted then raise schema_drift else pure tt

    -- The cached answer is the one that would be computed.
    abbrev pub IsCached : Database P R V F → Type 0
    IsCached d =
        (hash : ℕ) (drifted : Bool)
        → d.ctx.drift ≡ some (hash, drifted)
        → drifted ≡ not (schema.schema_hash d.ctx.schema_registry == hash)

    cached_drift_for_lem :
        (c : DbmsContext P R V F) (compiled_hash : ℕ) (cached : Bool)
        → cached_drift_for compiled_hash c ≡ some cached
        → c.drift ≡ some (compiled_hash, cached)
    unfolding cached_drift_for
    cached_drift_for_lem c compiled_hash cached h = elim (Option-cases c.drift) [
      | inl gone ↦ cc (rw gone at h)
      | inr ((hash, drifted), there) ↦ elim (Bool-cases (hash == compiled_hash)) [
        | inl e ↦
            let h' : some drifted ≡ some cached = rw (there, e) at h in
            cc (there, (==_iff hash compiled_hash).0 e, h')
        | inr e ↦ cc (rw (there, e) at h)
      ]
    ]

    fresh :
        (r : R) (compiled_hash : ℕ) (drifted : Bool) (hash : ℕ) (cached : Bool)
        → drifted ≡ not (schema.schema_hash r == compiled_hash)
        → Path (Option (ℕ × Bool)) (some (compiled_hash, drifted)) (some (hash, cached))
        → cached ≡ not (schema.schema_hash r == hash)
    fresh r compiled_hash drifted hash cached h e =
        let same : compiled_hash ≡ hash = cc in
        let value : drifted ≡ cached = cc in
        sym value ∙ h ∙ ap (λ n. not (schema.schema_hash r == n)) same

    -- Outside a migration, and when a cached answer is the one that would be computed, the drift check
    -- compares the hashes of the stored and the compiled schema, and leaves such a cache.
    pub drift_check_lem :
        (d : Database P R V F)
        → d.ctx.migrating ≡ false
        → IsCached d
        → ((drift_check d).0
            ≡ ok (not (schema.schema_hash d.ctx.schema_registry == schema.compiled_hash)))
          × IsCached (drift_check d).1
    unfolding drift_check cached_drift_for set_drift
    drift_check_lem d idle cached =
        elim (Option-cases (cached_drift_for schema.compiled_hash d.ctx)) [
          | inl miss ↦
              let drifted =
                not (schema.schema_hash d.ctx.schema_registry == schema.compiled_hash) in
              rw (drift_check, idle, miss)
                (
                  refl,
                  λ hash cached' e.
                      fresh d.ctx.schema_registry schema.compiled_hash drifted hash cached' refl e,
                )
          | inr (drifted, hit) ↦
              rw (drift_check, idle, hit)
                (
                  ap ok (
                      cached schema.compiled_hash drifted
                        (cached_drift_for_lem d.ctx schema.compiled_hash drifted hit)),
                  cached,
                )
        ]

    -- The check changes nothing but the cache.
    abbrev pub with_cache : Option (ℕ × Bool) → Database P R V F → Database P R V F
    with_cache q d = record d { ctx = record d.ctx { drift = q } }

    abbrev refuse_drift : Bool → Run (Database P R V F) E (Unit {0})
    refuse_drift drifted = if drifted then raise schema_drift else pure tt

    ensured_lem :
        (drifted : Bool) (q : Option (ℕ × Bool)) (d : Database P R V F)
        → let r = refuse_drift drifted (with_cache q d) in
          ((q : Option (ℕ × Bool)) × (r.1 ≡ with_cache q d))
          × ((r.0 ≡ ok tt) ⊎ (r.0 ≡ err schema_drift))
    ensured_lem true q d = ((q, refl), inr refl)
    ensured_lem false q d = ((q, refl), inl refl)

    check_from_cases :
        (migrating : Bool) (cached : Option Bool) (d : Database P R V F)
        → let r = (check_from migrating cached >>= refuse_drift) d in
          ((q : Option (ℕ × Bool)) × (r.1 ≡ with_cache q d))
          × ((r.0 ≡ ok tt) ⊎ (r.0 ≡ err schema_drift))
    unfolding check_from set_drift
    check_from_cases true cached d = ensured_lem false d.ctx.drift d
    check_from_cases false (some cached) d = ensured_lem cached d.ctx.drift d
    check_from_cases false none d =
        let drifted = not (schema.schema_hash d.ctx.schema_registry == schema.compiled_hash) in
        ensured_lem drifted (some (schema.compiled_hash, drifted)) d

    pub ensure_no_drift_cases :
        (d : Database P R V F)
        → ((q : Option (ℕ × Bool)) × ((ensure_no_drift d).1 ≡ with_cache q d))
          × (((ensure_no_drift d).0 ≡ ok tt) ⊎ ((ensure_no_drift d).0 ≡ err schema_drift))
    unfolding ensure_no_drift drift_check
    ensure_no_drift_cases d =
        check_from_cases d.ctx.migrating (cached_drift_for schema.compiled_hash d.ctx) d
