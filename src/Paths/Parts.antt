-- ===== src/Paths/Parts.antt =====
-- packages/adapter-sdk/src/path.ts: the segments of a path, split and joined.
use remotish.Shared.{
  Text, text, text_eq_iff, List, [], ◌∷◌, ◌++◌, append-nil, ◌==◌, is_nil, any_of, All, false, ◌≡◌,
  ◌≢◌, refl, sym, ap, ◌∙◌, arith, Bool-cases, inl, inr,
}
use remotish.Paths.{slash, split_path, join_path, is_bad_part, on_first_part}
use remotish.Paths.Tree.{has_slash}
use remotish.Paths.Canonical.{parts_of}

-- A segment of a repository path.
pub record IsSegment (s : Text) : Type 0 where
  pub filled : s ≢ []
  pub not_dot : s ≢ text "."
  pub not_dots : s ≢ text ".."
  pub single : has_slash s ≡ false

pub is_nil_append : (s t : Text) → t ≢ [] → is_nil (s ++ t) ≡ false
is_nil_append [] [] n = absurd (n refl)
is_nil_append [] (c ∷ t) n = refl
is_nil_append (c ∷ s) t n = refl

split_plain : (s : Text) → has_slash s ≡ false → split_path s ≡ s ∷ []
unfolding split_path has_slash
split_plain [] h = refl
split_plain (c ∷ s) h = ground (arith, split_plain s)

split_segment :
    (s rest : Text) → has_slash s ≡ false → split_path (s ++ slash ∷ rest) ≡ s ∷ split_path rest
unfolding split_path has_slash
split_segment [] rest h = ground arith
split_segment (c ∷ s) rest h = ground (arith, split_segment s rest)

pub split-join :
    (s : Text) (segments : List Text)
    → All IsSegment (s ∷ segments)
    → split_path (join_path (s ∷ segments)) ≡ s ∷ segments
unfolding join_path
split-join s [] (i, a) = split_plain s i.single
split-join s (t ∷ segments) (i, a) =
    split_segment s (join_path (t ∷ segments)) i.single
    ∙ ap (λ ps. s ∷ ps) (split-join t segments a)

pub join_filled : (s : Text) (segments : List Text) → s ≢ [] → join_path (s ∷ segments) ≢ []
unfolding join_path
join_filled [] segments n e = absurd (n refl)
join_filled (c ∷ s) [] n e = n e
join_filled (c ∷ s) (t ∷ segments) n e = absurd (ground (arith, e))

pub join_rest :
    (s : Text) (segments : List Text) → (rest : Text) × (join_path (s ∷ segments) ≡ s ++ rest)
unfolding join_path
join_rest s [] = ([], sym (append-nil s))
join_rest s (t ∷ segments) = (slash ∷ join_path (t ∷ segments), refl)

is_bad-IsSegment : (s : Text) → has_slash s ≡ false → is_bad_part s ≡ false → IsSegment s
unfolding is_bad_part
is_bad-IsSegment s h b = record {
  filled = λ e. ground (arith, b, e);
  not_dot = λ e. ground (arith, b, text_eq_iff s (text "."), e);
  not_dots = λ e. ground (arith, b, text_eq_iff s (text ".."), e);
  single = h;
}

IsSegment-is_bad : (s : Text) → IsSegment s → is_bad_part s ≡ false
unfolding is_bad_part
IsSegment-is_bad [] i = absurd (i.filled refl)
IsSegment-is_bad (c ∷ s) i =
    ground (
      arith,
      i.not_dot,
      i.not_dots,
      text_eq_iff (c ∷ s) (text "."),
      text_eq_iff (c ∷ s) (text ".."),
    )

pub AreSegments-good : (ps : List Text) → All IsSegment ps → any_of is_bad_part ps ≡ false
unfolding any_of
AreSegments-good [] a = refl
AreSegments-good (p ∷ ps) (i, a) = rw (IsSegment-is_bad p i) (AreSegments-good ps a)

pub good-AreSegments :
    (ps : List Text)
    → All (λ p. has_slash p ≡ false) ps
    → any_of is_bad_part ps ≡ false
    → All IsSegment ps
unfolding any_of
good-AreSegments [] a h = tt
good-AreSegments (p ∷ ps) (s, a) h = elim (Bool-cases (is_bad_part p)) [
  | inl y ↦ absurd (ground (arith, h, y))
  | inr n ↦ (is_bad-IsSegment p s n, good-AreSegments ps a (rw n at h))
]

split_parts : (s : Text) → All (λ p. has_slash p ≡ false) (split_path s)
unfolding split_path has_slash
split_parts [] = (refl, tt)
split_parts (c ∷ s) = elim (Bool-cases (c == slash)) [
  | inl y ↦ rw y (refl, split_parts s)
  | inr n ↦ rw n (on_first (split_path s) n (split_parts s))
]
  where
    on_first :
        (ps : List Text)
        → (c == slash) ≡ false
        → All (λ p. has_slash p ≡ false) ps
        → All (λ p. has_slash p ≡ false) (on_first_part c ps)
    on_first [] n a = (ground (arith, n), tt)
    on_first (p ∷ ps) n (h, a) = (ground (arith, n, h), a)

pub parts_of_joined :
    (q : Text) (segments : List Text)
    → q ≡ join_path segments
    → All IsSegment segments
    → parts_of q ≡ segments
parts_of_joined q [] e a = rw e (unfold join_path parts_of in refl)
parts_of_joined q (s ∷ segments) (e) (i, a) =
    let filled : is_nil (join_path (s ∷ segments)) ≡ false =
      is_nil_append [] _ (join_filled s segments i.filled) in
    rw e (unfold parts_of in rw filled (split-join s segments (i, a)))

pub parts_of-single : (s : Text) → All (λ p. has_slash p ≡ false) (parts_of s)
unfolding parts_of
parts_of-single [] = tt
parts_of-single (c ∷ s) = split_parts (c ∷ s)
