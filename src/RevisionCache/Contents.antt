-- ===== src/RevisionCache/Contents.antt =====
-- packages/core/src/repository/revision-cache.ts: the entries of a `RevisionCache` after a call.
use remotish.Shared.{
  Text, text_eq, text_eq→eq, text_eq_iff, Dict, lookup, lookup-insert, lookup-without, some, [],
  ◌∷◌, length, drop, delete, ℕ, zero, suc, ◌-◌, ◌≡◌, refl, arith, Bool-cases, Option-cases, ◌⊎◌,
  inl, inr,
}
use remotish.RevisionCache.{
  CacheEntry, RevisionCache, over_budget, evict_oldest, evict_to_budget, get_entry, set_entry,
}
use remotish.RevisionCache.Bounds.{
  IsBounded, IsDistinct, evict_over, evict_within, get_entry_hit, get_entry_miss, put_last,
  put_last-IsDistinct, insert-delete, is_refused, set_entry-eq, lookup-delete_self, with_new,
}
use remotish.RevisionCache.Retention.{lookup_last}

evict_oldest-drop :
    (c : RevisionCache) (m : Dict CacheEntry) (retained : ℕ)
    → (n : ℕ) × ((evict_oldest c m retained).0 ≡ drop n m)
evict_oldest-drop c [] retained = (0, unfold evict_oldest in refl)
evict_oldest-drop c ((k, e) ∷ m) retained =
    elim (Bool-cases (over_budget c retained (length ((k, e) ∷ m)))) [
      | inl over ↦
          let (n, r) = evict_oldest-drop c m (retained - e.weight) in
          (suc n, rw (evict_over c k e m retained over, r))
      | inr fine ↦ (0, rw (evict_within c k e m retained fine))
    ]

evict_to_budget-drop :
    (c : RevisionCache) → (n : ℕ) × ((evict_to_budget c).entries ≡ drop n c.entries)
unfolding evict_to_budget
evict_to_budget-drop c = evict_oldest-drop c c.entries c.retained_bytes

lookup-drop :
    (j : Text) (f : CacheEntry) (n : ℕ) (m : Dict CacheEntry)
    → IsDistinct m
    → lookup j (drop n m) ≡ some f
    → lookup j m ≡ some f
unfolding lookup
lookup-drop j f zero m d h = h
lookup-drop j f (suc n) [] d h = h
lookup-drop j f (suc n) ((k, e) ∷ m) (absent, d) h =
    ground (arith, lookup-drop j f n m d h, text_eq_iff k j)

lookup-put_last :
    (j k : Text) (e f : CacheEntry) (m : Dict CacheEntry)
    → lookup j (put_last k e m) ≡ some f
    → ((k ≡ j) × (f ≡ e)) ⊎ (lookup j m ≡ some f)
lookup-put_last j k e f m h = elim (Bool-cases (text_eq k j)) [
  | inl same ↦
      let q = text_eq→eq k j same in
      let l = lookup_last k e (delete k m) (lookup-delete_self k m) in
      inl (q, ground (arith, h, q, l))
  | inr other ↦ inr (
      ground (
        arith,
        h,
        insert-delete k e m,
        lookup-insert k j e (delete k m),
        lookup-without (λ i. text_eq i k) j m,
      ))
]

-- Writing an entry leaves no other entry than that one and old ones.
pub lookup-set_entry :
    (j k : Text) (e f : CacheEntry) (c : RevisionCache)
    → IsBounded c
    → lookup j (set_entry k e c).entries ≡ some f
    → ((k ≡ j) × (f ≡ e)) ⊎ (lookup j c.entries ≡ some f)
lookup-set_entry j k e f c b h = elim (Bool-cases (is_refused k c e)) [
  | inl r ↦
      let h' : lookup j (delete k c.entries) ≡ some f = rw (set_entry-eq k c e b, r) at h in
      inr (ground (arith, h', lookup-without (λ i. text_eq i k) j c.entries))
  | inr r ↦
      let w = with_new k c e in
      let h' : lookup j (evict_to_budget w).entries ≡ some f = rw (set_entry-eq k c e b, r) at h in
      let (n, kept) = evict_to_budget-drop w in
      let h'' : lookup j (drop n w.entries) ≡ some f = rw kept at h' in
      lookup-put_last j k e f c.entries
        (lookup-drop j f n w.entries (put_last-IsDistinct k e c.entries b.distinct) h'')
]

-- Reading an entry changes no entry.
pub lookup-get_entry :
    (j k : Text) (f : CacheEntry) (c : RevisionCache)
    → lookup j (get_entry k c).1.entries ≡ some f
    → lookup j c.entries ≡ some f
lookup-get_entry j k f c h = elim (Option-cases (lookup k c.entries)) [
  | inl miss ↦ rw (get_entry_miss k c miss) at h
  | inr (e, hit) ↦
      let h' : lookup j (put_last k e c.entries) ≡ some f = rw (get_entry_hit k c e hit) at h in
      elim (lookup-put_last j k e f c.entries h') [
        | inl (same, q) ↦ rw (← same, q) hit
        | inr old ↦ old
      ]
]
