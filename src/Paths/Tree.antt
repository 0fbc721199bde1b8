-- ===== src/Paths/Tree.antt =====
-- packages/core/src/util/path.ts: the tree that `is_same_or_child` and `is_direct_child` describe.
use remotish.Shared.{
  Text, text_eq, text_eq→eq, text_eq_refl, starts_with, starts_with-append, starts_with→append, ◌≡◌,
  ◌≢◌, refl, [], ◌∷◌, ◌++◌, Bool, true, false, ◌==◌, ◌||◌, none, some, arith, Bool-cases,
  Option-cases, ◌⊎◌, inl, inr, append_assoc, is_nil, if◌then◌else◌,
}
use remotish.Paths.{slash, split_last, parent_path, base_name, is_same_or_child, is_direct_child}

-- Below `parent`, as a fact: the path is `parent`, or goes on after it with a slash.
abbrev pub IsSameOrChild : Text → Text → Type 0
IsSameOrChild path parent = (path ≡ parent) ⊎ ((rest : Text) × (path ≡ parent ++ slash ∷ rest))

child_of-append : (p r : Text) → is_same_or_child (p ++ slash ∷ r) p ≡ true
unfolding is_same_or_child
child_of-append p r =
    let e : (p ++ slash ∷ []) ++ r ≡ p ++ slash ∷ r = append_assoc p (slash ∷ []) r in
    let h : starts_with (p ++ slash ∷ r) (p ++ slash ∷ []) ≡ true =
      rw e at (starts_with-append (p ++ slash ∷ []) r) in
    ground (arith, h)

pub IsSameOrChild-sound :
    (path parent : Text) → is_same_or_child path parent ≡ true → IsSameOrChild path parent
unfolding is_same_or_child
IsSameOrChild-sound path parent h = elim (Bool-cases (text_eq path parent)) [
  | inl e ↦ inl (text_eq→eq path parent e)
  | inr e ↦
      let (r, p) = starts_with→append path (parent ++ slash ∷ []) (ground arith) in
      let q : (parent ++ slash ∷ []) ++ r ≡ parent ++ slash ∷ r =
        append_assoc parent (slash ∷ []) r in
      inr (r, rw q at p)
]

pub IsSameOrChild-complete :
    (path parent : Text) → IsSameOrChild path parent → is_same_or_child path parent ≡ true
IsSameOrChild-complete path parent (inl e) =
    rw e (unfold is_same_or_child in ground (arith, text_eq_refl parent))
IsSameOrChild-complete path parent (inr (r, e)) = rw e (child_of-append parent r)

pub same_or_child_refl : (path : Text) → is_same_or_child path path ≡ true
same_or_child_refl path = IsSameOrChild-complete path path (inl refl)

IsSameOrChild-trans : (a b c : Text) → IsSameOrChild a b → IsSameOrChild b c → IsSameOrChild a c
IsSameOrChild-trans a b c (inl p) q = rw p q
IsSameOrChild-trans a b c (inr (r, p)) (inl q) = inr (r, rw (← q) p)
IsSameOrChild-trans a b c (inr (r, p)) (inr (s, q)) = inr (s ++ slash ∷ r, rw (p, q, append_assoc))

-- What lies below a path that lies below a third lies below the third.
pub same_or_child_trans :
    (a b c : Text)
    → is_same_or_child a b ≡ true
    → is_same_or_child b c ≡ true
    → is_same_or_child a c ≡ true
same_or_child_trans a b c p q =
    IsSameOrChild-complete a c
      (IsSameOrChild-trans a b c (IsSameOrChild-sound a b p) (IsSameOrChild-sound b c q))

pub same_or_child_trans_false :
    (a b c : Text)
    → is_same_or_child a b ≡ true
    → is_same_or_child a c ≡ false
    → is_same_or_child b c ≡ false
same_or_child_trans_false a b c p q = elim (Bool-cases (is_same_or_child b c)) [
  | inl yes' ↦ absurd (ground (arith, same_or_child_trans a b c p yes'))
  | inr no' ↦ no'
]

unfoldable pub has_slash : Text → Bool
has_slash [] = false
has_slash (c ∷ s) = c == slash || has_slash s

split_last-none : (t : Text) → split_last t ≡ none → has_slash t ≡ false
unfolding split_last has_slash
split_last-none [] h = refl
split_last-none (c ∷ s) h = ground (arith, split_last-none s)

split_last-some :
    (t before after : Text)
    → split_last t ≡ some (before, after)
    → (t ≡ before ++ slash ∷ after) × (has_slash after ≡ false)
unfolding split_last has_slash
split_last-some [] before after h = absurd (ground arith)
split_last-some (c ∷ s) before after h = elim (Option-cases (split_last s)) [
  | inl e ↦ let n = split_last-none s e in (ground arith, ground arith)
  | inr ((b, a), e) ↦ let (p, q) = split_last-some s b a e in (ground arith, ground arith)
]

-- A path is its parent, a slash and its base name; below the root, its base name alone.
pub parent-base_name :
    (path parent : Text)
    → parent_path path ≡ some parent
    → (base_name path ≡ path) × (parent ≡ []) ⊎ (path ≡ parent ++ slash ∷ base_name path)
unfolding parent_path base_name
parent-base_name [] parent h = absurd (ground arith)
parent-base_name (c ∷ s) parent h = elim (Option-cases (split_last (c ∷ s))) [
  | inl e ↦ inl (ground arith, ground arith)
  | inr ((b, a), e) ↦ let (p, q) = split_last-some (c ∷ s) b a e in inr (ground arith)
]

-- A direct child of a directory other than the root lies below it.
pub direct_child-same_or_child :
    (path parent : Text)
    → parent ≢ []
    → is_direct_child path parent ≡ true
    → is_same_or_child path parent ≡ true
direct_child-same_or_child path parent h d = elim (Option-cases (parent_path path)) [
  | inl e ↦ absurd (unfold is_direct_child in ground arith)
  | inr (p, e) ↦
      let same : p ≡ parent = text_eq→eq p parent (unfold is_direct_child in ground arith) in
      IsSameOrChild-complete path parent (elim (parent-base_name path p e) [
        | inl (_, root) ↦ absurd (h (rw (← same) root))
        | inr below ↦ inr (base_name path, rw (← same) below)
      ])
]

split_last-no_slash : (t : Text) → has_slash t ≡ false → split_last t ≡ none
unfolding split_last has_slash
split_last-no_slash [] h = refl
split_last-no_slash (c ∷ s) h = ground (arith, split_last-no_slash s)

split_last-append :
    (before after : Text)
    → has_slash after ≡ false
    → split_last (before ++ slash ∷ after) ≡ some (before, after)
unfolding split_last
split_last-append [] after h = ground (arith, split_last-no_slash after h)
split_last-append (c ∷ s) after h = ground (arith, split_last-append s after h)

-- The parent and the base name of a path that was put together from both.
pub parent-child_path :
    (parent name : Text)
    → has_slash name ≡ false
    → name ≢ []
    → (parent_path (if is_nil parent then name else parent ++ slash ∷ name) ≡ some parent)
      × (base_name (if is_nil parent then name else parent ++ slash ∷ name) ≡ name)
unfolding parent_path base_name
parent-child_path [] [] h n = absurd (n refl)
parent-child_path [] (c ∷ s) h n = ground (arith, split_last-no_slash (c ∷ s) h)
parent-child_path (c ∷ s) name h n = ground (arith, split_last-append (c ∷ s) name h)
