-- ===== src/RevisionCache/Bounds.antt =====
-- packages/core/src/repository/revision-cache.ts: the byte count of a `RevisionCache` and its limits.
use remotish.Shared.{
  Text, text_eq, text_eq_iff, Dict, lookup, insert, delete, without, none, some, [], ◌∷◌, ◌++◌,
  Bool, true, false, ◌||◌, ltb, ◌==◌, if◌then◌else◌, length, ℕ, ◌+◌, ◌-◌, ◌≤◌, ◌≡◌, refl, arith,
  Bool-cases, Option-cases, inl, inr, length-append,
}
use remotish.RevisionCache.{
  CacheEntry, RevisionCache, over_budget, evict_oldest, get_entry, drop_previous, set_entry,
  is_zero_limit, evict_to_budget,
}

abbrev pub total : Dict CacheEntry → ℕ
total [] = 0
total ((k, e) ∷ m) = e.weight + total m

abbrev pub IsDistinct {ℓ} : {V : Type ℓ} → Dict V → Type ℓ
IsDistinct [] = Unit
IsDistinct ((k, v) ∷ m) = (lookup k m ≡ none) × IsDistinct m

-- The count is the sum of the weights, within the limit, and so is the number of entries.
pub record IsBounded (c : RevisionCache) : Type 0 where
  pub distinct : IsDistinct c.entries
  pub counted : c.retained_bytes ≡ total c.entries
  pub bytes : c.retained_bytes ≤ c.max_bytes
  pub size : (n : ℕ) → c.max_entries ≡ some n → length c.entries ≤ n

module _ {ℓ} {V : Type ℓ} where
  pub delete_absent : (k : Text) (m : Dict V) → lookup k m ≡ none → delete k m ≡ m
  unfolding lookup without
  delete_absent k [] h = refl
  delete_absent k ((j, v) ∷ m) h = ground (arith, delete_absent k m)

  pub lookup-delete-none :
      (k j : Text) (m : Dict V) → lookup j m ≡ none → lookup j (delete k m) ≡ none
  unfolding lookup without
  lookup-delete-none k j [] h = refl
  lookup-delete-none k j ((i, v) ∷ m) h = ground (arith, lookup-delete-none k j m)

  pub lookup-delete_self : (k : Text) (m : Dict V) → lookup k (delete k m) ≡ none
  unfolding lookup without
  lookup-delete_self k [] = refl
  lookup-delete_self k ((i, v) ∷ m) = ground (arith, lookup-delete_self k m)

  pub delete-IsDistinct : (k : Text) (m : Dict V) → IsDistinct m → IsDistinct (delete k m)
  unfolding without
  delete-IsDistinct k [] d = d
  delete-IsDistinct k ((j, v) ∷ m) (fresh, d) =
      ground (arith, delete-IsDistinct k m d, lookup-delete-none k j m fresh)

  -- a new key goes to the end
  pub insert_absent :
      (k : Text) (v : V) (m : Dict V) → lookup k m ≡ none → insert k v m ≡ m ++ (k, v) ∷ []
  unfolding lookup insert
  insert_absent k v [] h = refl
  insert_absent k v ((j, w) ∷ m) h = ground (arith, insert_absent k v m)

  pub lookup-append_none :
      (k j : Text) (v : V) (m : Dict V)
      → lookup j m ≡ none
      → text_eq k j ≡ false
      → lookup j (m ++ (k, v) ∷ []) ≡ none
  unfolding lookup
  lookup-append_none k j v [] h e = ground arith
  lookup-append_none k j v ((i, w) ∷ m) h e = ground (arith, lookup-append_none k j v m)

  pub append-IsDistinct :
      (k : Text) (v : V) (m : Dict V)
      → lookup k m ≡ none
      → IsDistinct m
      → IsDistinct (m ++ (k, v) ∷ [])
  unfolding lookup
  append-IsDistinct k v [] h d = (refl, tt)
  append-IsDistinct k v ((j, w) ∷ m) h (fresh, d) = (
    lookup-append_none k j v m fresh (ground (arith, text_eq_iff k j, text_eq_iff j k)),
    append-IsDistinct k v m (ground arith) d,
  )

total-append :
    (k : Text) (e : CacheEntry) (m : Dict CacheEntry)
    → total (m ++ (k, e) ∷ []) ≡ total m + e.weight
total-append k e [] = omega arith
total-append k e ((j, f) ∷ m) = omega (arith, total-append k e m)

pub total-delete :
    (k : Text) (e : CacheEntry) (m : Dict CacheEntry)
    → IsDistinct m
    → lookup k m ≡ some e
    → total (delete k m) + e.weight ≡ total m
unfolding lookup without
total-delete k e [] d h = cc
total-delete k e ((j, f) ∷ m) (fresh, d) h = elim (Bool-cases (text_eq j k)) [
  | inl same ↦ rw same (ground (arith, h, same, fresh, text_eq_iff j k, delete_absent k m))
  | inr other ↦ rw other (omega (arith, total-delete k e m d (ground arith)))
]

-- `IsBounded`, of the entries and the count alone
abbrev Fits : RevisionCache → Dict CacheEntry → ℕ → Type 0
Fits c m retained =
    IsDistinct m
    × (retained ≡ total m)
    × (retained ≤ c.max_bytes)
    × ((n : ℕ) → c.max_entries ≡ some n → length m ≤ n)

within_budget :
    (c : RevisionCache) (retained size : ℕ)
    → over_budget c retained size ≡ false
    → (retained ≤ c.max_bytes) × ((n : ℕ) → c.max_entries ≡ some n → size ≤ n)
unfolding over_budget
within_budget c retained size h = (ground arith, λ n e. ground arith)

module _ (c : RevisionCache) (k : Text) (e : CacheEntry) (m : Dict CacheEntry) (retained : ℕ) where
  pub evict_over :
      over_budget c retained (length ((k, e) ∷ m)) ≡ true
      → evict_oldest c ((k, e) ∷ m) retained ≡ evict_oldest c m (retained - e.weight)
  unfolding evict_oldest
  evict_over over = rw over

  pub evict_within :
      over_budget c retained (length ((k, e) ∷ m)) ≡ false
      → evict_oldest c ((k, e) ∷ m) retained ≡ ((k, e) ∷ m, retained)
  unfolding evict_oldest
  evict_within fine = rw fine

evict_oldest-Fits :
    (c : RevisionCache) (m : Dict CacheEntry) (retained : ℕ)
    → IsDistinct m
    → retained ≡ total m
    → Fits c (evict_oldest c m retained).0 (evict_oldest c m retained).1
evict_oldest-Fits c [] retained d h =
    unfold evict_oldest in (tt, h, omega arith, λ n e. omega arith)
evict_oldest-Fits c ((k, e) ∷ m) retained (fresh, d) h =
    elim (Bool-cases (over_budget c retained (length ((k, e) ∷ m)))) [
      | inl over ↦
          rw (evict_over c k e m retained over)
            (evict_oldest-Fits c m (retained - e.weight) d (omega arith))
      | inr fine ↦
          let (p, q) = within_budget c retained (length ((k, e) ∷ m)) fine in
          rw (evict_within c k e m retained fine) ((fresh, d), h, p, q)
    ]

length-delete :
    (k : Text) (e : CacheEntry) (m : Dict CacheEntry)
    → IsDistinct m
    → lookup k m ≡ some e
    → length (delete k m) + 1 ≡ length m
unfolding lookup without
length-delete k e [] d h = absurd (ground arith)
length-delete k e ((j, f) ∷ m) (fresh, d) h = elim (Bool-cases (text_eq j k)) [
  | inl same ↦ rw same (ground (arith, h, same, fresh, text_eq_iff j k, delete_absent k m))
  | inr other ↦ rw other (omega (arith, length-delete k e m d (ground arith)))
]

-- The entries with `k` last.
abbrev pub put_last : Text → CacheEntry → Dict CacheEntry → Dict CacheEntry
put_last k e m = delete k m ++ (k, e) ∷ []

pub insert-delete :
    (k : Text) (e : CacheEntry) (m : Dict CacheEntry) → insert k e (delete k m) ≡ put_last k e m
insert-delete k e m = insert_absent k e (delete k m) (lookup-delete_self k m)

pub put_last-IsDistinct :
    (k : Text) (e : CacheEntry) (m : Dict CacheEntry) → IsDistinct m → IsDistinct (put_last k e m)
put_last-IsDistinct k e m d =
    append-IsDistinct k e (delete k m) (lookup-delete_self k m) (delete-IsDistinct k m d)

module _ (k : Text) (c : RevisionCache) where
  pub get_entry_miss : lookup k c.entries ≡ none → get_entry k c ≡ (none, c)
  unfolding get_entry
  get_entry_miss h = rw (h, get_entry)

  pub get_entry_hit :
      (e : CacheEntry)
      → lookup k c.entries ≡ some e
      → get_entry k c ≡ (some e, record c { entries = put_last k e c.entries })
  unfolding get_entry
  get_entry_hit e h = rw (h, get_entry, insert-delete k e c.entries)

  pub get_entry-IsBounded : IsBounded c → IsBounded (get_entry k c).1
  get_entry-IsBounded b = elim (Option-cases (lookup k c.entries)) [
    | inl h ↦ rw (get_entry_miss h) b
    | inr (e, h) ↦ rw (get_entry_hit e h) (record {
      distinct = put_last-IsDistinct k e c.entries b.distinct;
      counted = omega (
        arith,
        total-append k e (delete k c.entries),
        total-delete k e c.entries b.distinct h,
        b.counted,
      );
      bytes = b.bytes;
      size = λ n l. omega (
        arith,
        length-append (delete k c.entries) ((k, e) ∷ []),
        length-delete k e c.entries b.distinct h,
        b.size n l,
      );
    })
  ]

  -- The cache without `k`, before the new entry goes in.
  abbrev dropped : RevisionCache
  dropped = record c { entries = delete k c.entries; retained_bytes = total (delete k c.entries) }

  drop_previous-dropped : IsBounded c → drop_previous k c ≡ dropped
  drop_previous-dropped b = elim (Option-cases (lookup k c.entries)) [
    | inl h ↦
        let same : delete k c.entries ≡ c.entries = delete_absent k c.entries h in
        unfold drop_previous in rw (h, drop_previous) (ground (arith, same, b.counted))
    | inr (e, h) ↦
        unfold drop_previous in
        rw (h, drop_previous) (ground (arith, total-delete k e c.entries b.distinct h, b.counted))
  ]

  -- The cache with the new entry, before the eviction.
  abbrev pub with_new : CacheEntry → RevisionCache
  with_new e = record c {
    entries = put_last k e c.entries;
    retained_bytes = total (delete k c.entries) + e.weight;
  }

  abbrev pub is_refused : CacheEntry → Bool
  is_refused e = c.max_bytes == 0 || ltb c.max_bytes e.weight || is_zero_limit c.max_entries

  pub set_entry-eq :
      (e : CacheEntry)
      → IsBounded c
      → set_entry k e c ≡ (if is_refused e then dropped else evict_to_budget (with_new e))
  unfolding set_entry
  set_entry-eq e b = unfold set_entry in rw (drop_previous-dropped b, insert-delete k e c.entries)

  dropped-IsBounded : IsBounded c → IsBounded dropped
  dropped-IsBounded b = elim (Option-cases (lookup k c.entries)) [
    | inl h ↦ rw (← drop_previous-dropped b) (unfold drop_previous in rw (h, drop_previous) b)
    | inr (e, h) ↦ record {
      distinct = delete-IsDistinct k c.entries b.distinct;
      counted = refl;
      bytes = omega (arith, total-delete k e c.entries b.distinct h, b.counted, b.bytes);
      size = λ n l. omega (arith, length-delete k e c.entries b.distinct h, b.size n l);
    }
  ]

evict_to_budget-IsBounded :
    (c : RevisionCache)
    → IsDistinct c.entries
    → c.retained_bytes ≡ total c.entries
    → IsBounded (evict_to_budget c)
evict_to_budget-IsBounded c d h =
    let (d', h', b, s) = evict_oldest-Fits c c.entries c.retained_bytes d h in
    unfold evict_to_budget in record { distinct = d'; counted = h'; bytes = b; size = s }

-- Writing an entry keeps the count right and the cache within its limits.
pub set_entry-IsBounded :
    (k : Text) (e : CacheEntry) (c : RevisionCache) → IsBounded c → IsBounded (set_entry k e c)
set_entry-IsBounded k e c b = rw (set_entry-eq k c e b) (elim (Bool-cases (is_refused k c e)) [
  | inl r ↦ rw r (dropped-IsBounded k c b)
  | inr r ↦ rw r (
      evict_to_budget-IsBounded (with_new k c e) (put_last-IsDistinct k e c.entries b.distinct)
        (omega (arith, total-append k e (delete k c.entries))))
])
