-- ===== src/Crm/Lookups.antt =====
-- What the cache of contacts answers.
use ai_receptionist_for_immi.Prelude.{
  ℕ, ◌+◌, ◌<◌, String, ◌≡◌, refl, Bool, true, Option, none, some, ◌∷◌, arith, eq_refl, ltb,
  nonempty,
}
use ai_receptionist_for_immi.Dict.{Dict, get, get_or}
use ai_receptionist_for_immi.Value.{Value}
use ai_receptionist_for_immi.Crm.{
  Cache, live, normalise_phone, cache_key, cached_entry, entry_of_contact, stored_entry, store,
  found_contact, lookup_caller, Texts,
}
use ai_receptionist_for_immi.Worker.{fields_of}

module _ (env : Texts) where
  -- what is read back from an entry that was stored
  cached_entry-stored :
      (e : Value × Value)
      → nonempty (env.dumps (stored_entry env e)) ≡ true
      → env.loads (env.dumps (stored_entry env e)) ≡ some (stored_entry env e)
      → cached_entry env (some (env.dumps (stored_entry env e))) ≡ some e
  unfolding get_or get fields_of
  cached_entry-stored (name, id) full law = rw (full, law) refl

  -- A caller whom the CRM knows is known under the same name and id at a next call within 24 hours, from
  -- the cache and whatever the CRM answers then, also if the number is spelled in another way with the
  -- same normal form, where the first call finds no entry in the cache and its entry can be read back.
  pub lookup_caller-twice :
      (phone again : String) (f : String × Value) (contact : Dict Value) (cache : Cache) (ok : Bool)
      (now then_at : ℕ) (later : Option (Option (Dict Value)))
      → then_at < now + 86_400
      → cached_entry env (live now (cache (cache_key env phone))) ≡ none
      → normalise_phone env again ≡ normalise_phone env phone
      → nonempty (env.dumps (stored_entry env (entry_of_contact env (f ∷ contact)))) ≡ true
      → env.loads (env.dumps (stored_entry env (entry_of_contact env (f ∷ contact))))
        ≡ some (stored_entry env (entry_of_contact env (f ∷ contact)))
      → (lookup_caller env true now phone (some (some (f ∷ contact))) cache).0
          ≡ entry_of_contact env (f ∷ contact)
        × ((lookup_caller env ok then_at again later
              (lookup_caller env true now phone (some (some (f ∷ contact))) cache).1).0
            ≡ entry_of_contact env (f ∷ contact))
  unfolding lookup_caller found_contact store
  lookup_caller-twice phone again f contact cache ok now then_at later soon miss same full law =
      let e = entry_of_contact env (f ∷ contact) in
      let key = cache_key env phone in
      let alive : ltb then_at (now + 86_400) ≡ true = ground arith in
      (
        rw (lookup_caller, miss) refl,
        rw (lookup_caller, miss, same, eq_refl key, alive, cached_entry-stored e full law) refl,
      )
