-- ===== src/Repository/Walk.antt =====
-- packages/core/src/repository/repository-reader.ts and packages/core/src/working-tree/traversal.ts:
-- what a walk of a tree lists.
use remotish.Shared.{
  Text, text_eq→eq, text_eq_refl, contains, contains-append, Result, ok, and_then-ok, List, [], ◌∷◌,
  Bool, true, ◌||◌, ℕ, zero, suc, ◌+◌, ◌≤◌, ◌≡◌, refl, arith, Bool-cases, ◌⊎◌, ◌↔◌, inl, inr,
}
use remotish.Sdk.{DirectoryEntryType, file, directory, DirectoryEntry}
use remotish.Repository.{
  WalkState, visit, walk_entries, walk, walk_from, start_walk, max_traversal_nodes,
  max_traversal_depth, note_entry, enter_entry,
}
use remotish.Repository.Entries.{Listed}

module _ (selects : DirectoryEntryType → Bool) (read : Text → Result (List DirectoryEntry)) where
  -- `path` is listed, and taken, in `from` or in a directory below it.
  pub data Reaches : Text → Text → Type 0 where
    here :
        {from path : Text} (es : List DirectoryEntry) (e : DirectoryEntry)
        → read from ≡ ok es
        → Listed e es
        → selects e.type ≡ true
        → e.path ≡ path
        → Reaches from path
    below :
        {from path : Text} (es : List DirectoryEntry) (e : DirectoryEntry)
        → read from ≡ ok es
        → Listed e es
        → e.type ≡ directory
        → Reaches e.path path
        → Reaches from path

  -- The same, from the rest of a listing.
  abbrev FromEntries : List DirectoryEntry → Text → Type 0
  FromEntries es path =
      (e : DirectoryEntry) × Listed e es
      × ((selects e.type ≡ true) × (e.path ≡ path) ⊎ (e.type ≡ directory) × Reaches e.path path)

-- From `s` to `t` the output grew by the paths of `P`, and by no other.
record Explores (P : Text → Type 0) (s t : WalkState) : Type 0 where
  kept : (f : Text) → contains f s.output ≡ true → contains f t.output ≡ true
  found : (f : Text) → P f → contains f t.output ≡ true
  only : (f : Text) → contains f t.output ≡ true → (contains f s.output ≡ true) ⊎ P f

Explores-none : (P : Text → Type 0) (s : WalkState) → ((f : Text) → P f → ⊥) → Explores P s s
Explores-none P s n = record { kept = λ f h. h; found = λ f p. absurd (n f p); only = λ f h. inl h }

-- One exploration after another, where `R` is `P` or `Q`.
Explores-trans :
    (P Q R : Text → Type 0) (s t u : WalkState)
    → Explores P s t
    → Explores Q t u
    → ((f : Text) → P f → R f)
    → ((f : Text) → Q f → R f)
    → ((f : Text) → R f → P f ⊎ Q f)
    → Explores R s u
Explores-trans P Q R s t u x y p q r = record {
  kept = λ f h. y.kept f (x.kept f h);
  found = λ f h. elim (r f h) [ inl a ↦ y.kept f (x.found f a) | inr b ↦ y.found f b ];
  only = λ f h. elim (y.only f h) [
    | inl a ↦ elim (x.only f a) [ inl b ↦ inl b | inr c ↦ inr (p f c) ]
    | inr b ↦ inr (q f b)
  ];
}

pub Type-cases : (t : DirectoryEntryType) → (t ≡ file) ⊎ (t ≡ directory)
Type-cases file = inl refl
Type-cases directory = inr refl

output-visit :
    (s t : WalkState)
    → visit s ≡ ok t
    → (t.output ≡ s.output) × (t.visited ≡ s.visited + 1) × (t.visited ≤ max_traversal_nodes)
unfolding visit
output-visit s t h = (ground arith, ground arith, ground arith)

one-contains : (p f : Text) → contains f (p ∷ []) ≡ true → p ≡ f
unfolding contains
one-contains p f h = text_eq→eq p f (ground arith)

module _ (selects : DirectoryEntryType → Bool) (read : Text → Result (List DirectoryEntry)) where
  abbrev Taken : DirectoryEntry → Text → Type 0
  Taken e f = (selects e.type ≡ true) × (e.path ≡ f)

  note-Explores :
      (e : DirectoryEntry) (s t : WalkState)
      → t.output ≡ s.output
      → Explores (Taken e) s (note_entry selects e t)
  unfolding note_entry
  note-Explores e s t same = elim (Bool-cases (selects e.type)) [
    | inl y ↦
        rw (y, note_entry, same)
          (record {
            kept = λ f h. rw contains-append (unfold contains in ground arith);
            found = λ f (_, p).
                rw (contains-append, p) (unfold contains in ground (arith, text_eq_refl f));
            only = λ f h. split f (rw contains-append at h) y;
          })
    | inr n ↦
        rw (n, note_entry)
          (record {
            kept = λ f h. rw same h;
            found = λ f (p, _). absurd (ground arith);
            only = λ f h. inl (rw (← same) h);
          })
  ]
    where
      split :
          (f : Text)
          → (contains f s.output || contains f (e.path ∷ [])) ≡ true
          → selects e.type ≡ true
          → (contains f s.output ≡ true) ⊎ Taken e f
      split f h y = elim (Bool-cases (contains f s.output)) [
        | inl old ↦ inl old
        | inr new ↦ inr (y, one-contains e.path f (ground arith))
      ]

  -- What `enter` explores of a path: what the path reaches.
  Enters : (Text → WalkState → Result WalkState) → Type 0
  Enters enter =
      (path : Text) (s t : WalkState)
      → enter path s ≡ ok t
      → Explores (Reaches selects read path) s t

  abbrev Below : DirectoryEntry → Text → Type 0
  Below e f = (e.type ≡ directory) × Reaches selects read e.path f

  enter-Explores :
      (enter : Text → WalkState → Result WalkState) (e : DirectoryEntry) (s t : WalkState)
      → Enters enter
      → enter_entry enter e s ≡ ok t
      → Explores (Below e) s t
  unfolding enter_entry Enters
  enter-Explores enter e s t n h = elim (Type-cases e.type) [
    | inl y ↦
        let same : s ≡ t = ground (arith, h, y) in
        rw (← same) (Explores-none (Below e) s (λ f b. ground (arith, b.0, y)))
    | inr y ↦
        let x = n e.path s t (ground (arith, h, y)) in
        record {
          kept = x.kept;
          found = λ f b. x.found f b.1;
          only = λ f k. elim (x.only f k) [ inl a ↦ inl a | inr b ↦ inr (y, b) ];
        }
  ]

  entries-Explores :
      (enter : Text → WalkState → Result WalkState) (es : List DirectoryEntry) (s t : WalkState)
      → Enters enter
      → walk_entries selects enter es s ≡ ok t
      → Explores (FromEntries selects read es) s t
  unfolding walk_entries
  entries-Explores enter [] s t n h =
      let same : s ≡ t = ground arith in
      rw (← same) (Explores-none (FromEntries selects read []) s (λ f p. p.1))
  entries-Explores enter (e ∷ es) s t n h =
      let (v, visited, h') = and_then-ok (visit s) _ h in
      let (u, entered, rest) = and_then-ok (enter_entry enter e (note_entry selects e v)) _ h' in
      let noted = note-Explores e s v (output-visit s v visited).0 in
      let inner = enter-Explores enter e (note_entry selects e v) u n entered in
      let outer = entries-Explores enter es u t n rest in
      Explores-trans (λ f. Taken e f ⊎ Below e f) (FromEntries selects read es)
        (FromEntries selects read (e ∷ es)) s u t
        (Explores-trans (Taken e) (Below e) (λ f. Taken e f ⊎ Below e f) s (note_entry selects e v)
          u noted inner (λ f p. inl p) (λ f p. inr p) (λ f p. p))
        outer (λ f p. (e, inl refl, p)) (λ f (d, l, p). (d, inr l, p))
        (λ f (d, l, p). split f d l p)
    where
      split :
          (f : Text) (d : DirectoryEntry)
          → (e ≡ d) ⊎ Listed d es
          → Taken d f ⊎ Below d f
          → (Taken e f ⊎ Below e f) ⊎ FromEntries selects read es f
      split f d (inl same) p = inl (rw same p)
      split f d (inr l) p = inr (d, l, p)

  Reaches-FromEntries :
      (path : Text) (es : List DirectoryEntry) (f : Text)
      → read path ≡ ok es
      → Reaches selects read path f
      → FromEntries selects read es f
  Reaches-FromEntries path es f h (here ds e h' l y p) =
      let same : ds ≡ es = ground arith in (e, rw (← same) l, inl (y, p))
  Reaches-FromEntries path es f h (below ds e h' l y r) =
      let same : ds ≡ es = ground arith in (e, rw (← same) l, inr (y, r))

  FromEntries-Reaches :
      (path : Text) (es : List DirectoryEntry) (f : Text)
      → read path ≡ ok es
      → FromEntries selects read es f
      → Reaches selects read path f
  FromEntries-Reaches path es f h (e, l, inl (y, p)) = here es e h l y p
  FromEntries-Reaches path es f h (e, l, inr (y, r)) = below es e h l y r

  walk-Enters : (levels : ℕ) → Enters (walk selects read levels)
  unfolding walk Enters
  walk-Enters zero path s t h = absurd (ground arith)
  walk-Enters (suc levels) path s t h =
      let (es, listed, rest) = and_then-ok (read path) _ h in
      let x = entries-Explores (walk selects read levels) es s t (walk-Enters levels) rest in
      record {
        kept = x.kept;
        found = λ f r. x.found f (Reaches-FromEntries path es f listed r);
        only = λ f k. elim (x.only f k) [
          | inl a ↦ inl a
          | inr p ↦ inr (FromEntries-Reaches path es f listed p)
        ];
      }

  -- A walk that returns lists exactly the entries of the wanted kind that the directory and the
  -- directories below it list.
  pub walk_from-Reaches :
      (path f : Text) (out : List Text)
      → walk_from selects read path ≡ ok out
      → (contains f out ≡ true) ↔ Reaches selects read path f
  unfolding walk_from Enters
  walk_from-Reaches path f out h =
      let (t, walked, done) =
        and_then-ok (walk selects read (max_traversal_depth + 1) path start_walk) _ h in
      let x = walk-Enters (max_traversal_depth + 1) path start_walk t walked in
      let same : t.output ≡ out = ground arith in
      (
        λ c. elim (x.only f (rw same c)) [
          | inl start ↦ absurd (unfold contains in ground arith)
          | inr r ↦ r
        ],
        λ r. rw (← same) (x.found f r),
      )
