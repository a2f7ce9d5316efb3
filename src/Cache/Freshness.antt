-- ===== src/Cache/Freshness.antt =====
-- What a reader of the cache can see.
use simply_sats.Prelude.{ℕ, ◌+◌, ◌≡◌, refl, not, Option, none, some, arith}
use simply_sats.Dict.{lookup, HasDistinctKeys, kept, lookup-filter}
use simply_sats.Cache.Entries.{CacheEntry, RequestCache, is_expired, get, get_entry, cleanup}

module _ {ℓ} {V : Type ℓ} where
  -- The cleanup is not seen: whatever is asked at that time or later is answered as before.
  get-cleanup :
      (now later key : ℕ) (c : RequestCache V)
      → HasDistinctKeys c.entries
      → (get (now + later) key (cleanup now c)).0 ≡ (get (now + later) key c).0
  unfolding get cleanup
  get-cleanup now later key c h =
      rw (lookup-filter (λ e. not (is_expired now e.1)) key c.entries h)
        (agrees (lookup key c.entries))
    where
      agrees :
          (o : Option (CacheEntry V))
          → (get_entry
              (now + later)
              key
              (kept (λ e. not (is_expired now e.1)) key o)
              (cleanup now c)).0
            ≡ (get_entry (now + later) key o c).0
      agrees none = refl
      agrees (some e) = ground arith
