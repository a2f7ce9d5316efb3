-- ===== src/Tests/Caching.antt =====
-- The cache.
use simply_sats.Prelude.{ℕ, ◌+◌, ◌≤◌, none, [], ◌∷◌, length, arith}
use simply_sats.Cache.Entries.{CacheEntry, RequestCache, set}
use simply_sats.Cache.Eviction.{set-length}

abbrev entry : ℕ → CacheEntry ℕ
entry time = record { data_of = 40; timestamp = time; expires_at = time + 300 }

-- A full cache of two entries.
abbrev full : RequestCache ℕ
full = record {
  default_ttl = 300;
  max_entries = 2;
  entries = (5, entry 1000) ∷ (6, entry 1100) ∷ [];
}

set-length_example : length (set 1200 7 41 none full).entries ≤ 2
set-length_example =
    set-length 1200 7 41 none full (omega arith)
      ((λ e. ground (arith, e)), ((λ e. ground (arith, e)), tt)) (omega arith)
