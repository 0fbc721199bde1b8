-- ===== src/Paths/Segments.antt =====
-- packages/adapter-sdk/src/path.ts: which paths `normalizeRepoPath` returns, and for which inputs.
use remotish.Shared.{
  Text, ok, ok_injective, unless-ok, List, [], ◌∷◌, ◌++◌, append_assoc, ◌==◌, if◌then◌else◌, is_nil,
  any_of, All, map, true, false, ◌≡◌, ◌≢◌, ◌↔◌, refl, sym, ap, ◌∙◌, arith, Bool-cases, inl, inr,
}
use mathlib.Core.Path.{subst}
use remotish.Paths.{
  slash, replace_backslashes, trim_start, trim_end, join_path, is_bad_part, normalize_repo_path,
}
use remotish.Paths.Tree.{has_slash}
use remotish.Paths.Canonical.{trimmed, parts_of, join-parts_of, normalize-eq}
use remotish.Paths.Parts.{
  IsSegment, join_filled, join_rest, AreSegments-good, good-AreSegments, parts_of_joined,
  parts_of-single, is_nil_append,
}

abbrev pub AreSlashes : Text → Type 0
AreSlashes = All (λ c. c ≡ slash)

-- The path, with a slash for each backslash, is `q` between slashes, and `q` is segments with a
-- slash between any two.
pub record IsNormalOf (path q : Text) : Type 0 where
  pub before : Text
  pub after : Text
  pub leading : AreSlashes before
  pub trailing : AreSlashes after
  pub whole : map (λ c. if c == 92 then slash else c) path ≡ before ++ (q ++ after)
  pub segments : List Text
  pub good : All IsSegment segments
  pub joined : q ≡ join_path segments

replace-map : (s : Text) → replace_backslashes s ≡ map (λ c. if c == 92 then slash else c) s
unfolding replace_backslashes
replace-map [] = refl
replace-map (c ∷ s) = ap (λ t. (if c == 92 then slash else c) ∷ t) (replace-map s)

is_nil_eq : (s : Text) → is_nil s ≡ true → s ≡ []
is_nil_eq [] h = refl
is_nil_eq (c ∷ s) h = absurd (ground (arith, h))

trim_start_split : (s : Text) → (before : Text) × AreSlashes before × (s ≡ before ++ trim_start s)
unfolding trim_start
trim_start_split [] = ([], tt, refl)
trim_start_split (c ∷ s) = elim (Bool-cases (c == slash)) [
  | inl y ↦
      let (before, a, e) = trim_start_split s in
      (c ∷ before, (ground (arith, y), a), rw y (ap (λ t. c ∷ t) e))
  | inr n ↦ ([], tt, rw n refl)
]

trim_end_split : (s : Text) → (after : Text) × AreSlashes after × (s ≡ trim_end s ++ after)
unfolding trim_end
trim_end_split [] = ([], tt, refl)
trim_end_split (c ∷ s) =
    let (after, a, e) = trim_end_split s in
    elim (Bool-cases (c == slash)) [
      | inr n ↦ (after, a, rw n (ap (λ t. c ∷ t) e))
      | inl y ↦ elim (Bool-cases (is_nil (trim_end s))) [
        | inr m ↦ (after, a, rw (y, m) (ap (λ t. c ∷ t) e))
        | inl m ↦ (
          c ∷ after,
          (ground (arith, y), a),
          rw (y, m) (ap (λ t. c ∷ t) (e ∙ rw (is_nil_eq (trim_end s) m) refl)),
        )
      ]
    ]

trim_start_slashes : (before s : Text) → AreSlashes before → trim_start (before ++ s) ≡ trim_start s
unfolding trim_start
trim_start_slashes [] s a = refl
trim_start_slashes (c ∷ before) s (e, a) = ground (arith, e, trim_start_slashes before s a)

trim_start_all : (s : Text) → AreSlashes s → trim_start s ≡ []
unfolding trim_start
trim_start_all [] a = refl
trim_start_all (c ∷ s) (e, a) = ground (arith, e, trim_start_all s a)

trim_end_slashes : (s after : Text) → AreSlashes after → trim_end (s ++ after) ≡ trim_end s
unfolding trim_end
trim_end_slashes [] [] a = refl
trim_end_slashes [] (c ∷ after) (e, a) = ground (arith, e, trim_end_slashes [] after a)
trim_end_slashes (c ∷ s) after a = rw (trim_end_slashes s after a) refl

trim_end_plain : (s : Text) → has_slash s ≡ false → trim_end s ≡ s
unfolding trim_end has_slash
trim_end_plain [] h = refl
trim_end_plain (c ∷ s) h = ground (arith, trim_end_plain s)

trim_end_append : (s t : Text) → trim_end t ≡ t → t ≢ [] → trim_end (s ++ t) ≡ s ++ t
unfolding trim_end
trim_end_append [] t e n = e
trim_end_append (c ∷ s) t e n =
    let filled : is_nil (s ++ t) ≡ false = is_nil_append s t n in
    rw (trim_end_append s t e n, filled) (ground arith)

trim_end-join :
    (s : Text) (segments : List Text)
    → All IsSegment (s ∷ segments)
    → trim_end (join_path (s ∷ segments)) ≡ join_path (s ∷ segments)
unfolding join_path
trim_end-join s [] (i, a) = trim_end_plain s i.single
trim_end-join s (t ∷ segments) (i, (k, a)) =
    let rest = join_path (t ∷ segments) in
    let e : (s ++ slash ∷ []) ++ rest ≡ s ++ slash ∷ rest = append_assoc s (slash ∷ []) rest in
    rw e at (
      trim_end_append (s ++ slash ∷ []) rest (trim_end-join t segments (k, a))
        (join_filled t segments k.filled))

trim_start_segment : (s rest : Text) → IsSegment s → trim_start (s ++ rest) ≡ s ++ rest
unfolding trim_start
trim_start_segment [] rest i = absurd (i.filled refl)
trim_start_segment (c ∷ s) rest i =
    let h : has_slash (c ∷ s) ≡ false = i.single in unfold has_slash in ground (arith, h)

trim_end_nothing : trim_end [] ≡ []
unfolding trim_end
trim_end_nothing = refl

trim-between :
    (before after : Text) (segments : List Text)
    → AreSlashes before
    → AreSlashes after
    → All IsSegment segments
    → trim_end (trim_start (before ++ (join_path segments ++ after))) ≡ join_path segments
unfolding join_path
trim-between before after [] a b c =
    ap trim_end (trim_start_slashes before after a ∙ trim_start_all after b) ∙ trim_end_nothing
trim-between before after (s ∷ segments) a b (i, c) =
    let (rest, e) = join_rest s segments in
    let q = join_path (s ∷ segments) in
    let f : trim_start (q ++ after) ≡ q ++ after =
      rw (e, append_assoc) (trim_start_segment s (rest ++ after) i) in
    ap trim_end (trim_start_slashes before (q ++ after) a ∙ f)
    ∙ trim_end_slashes q after b
    ∙ trim_end-join s segments (i, c)

normal_lem :
    (path q : Text)
    → normalize_repo_path path ≡ ok q
    → (any_of is_bad_part (parts_of (trimmed path)) ≡ false) × (trimmed path ≡ q)
normal_lem path q h =
    let (good, h1) =
      unless-ok (any_of is_bad_part (parts_of (trimmed path))) _ (ok (trimmed path))
        (sym (normalize-eq path) ∙ h) in
    (good, ok_injective h1)

normal_complete : (path q : Text) → IsNormalOf path q → normalize_repo_path path ≡ ok q
normal_complete path q i =
    let between : trimmed path ≡ q =
      rw (replace-map, i.whole, i.joined)
        (trim-between i.before i.after i.segments i.leading i.trailing i.good) in
    rw
      (
        normalize-eq,
        between,
        parts_of_joined q i.segments i.joined i.good,
        AreSegments-good i.segments i.good,
      )
      refl

normal_sound : (path q : Text) → normalize_repo_path path ≡ ok q → IsNormalOf path q
normal_sound path q h =
    let (before, b, eb) = trim_start_split (replace_backslashes path) in
    let (after, a, ea) = trim_end_split (trim_start (replace_backslashes path)) in
    let (good, same) = normal_lem path q h in
    record {
      before = before;
      after = after;
      leading = b;
      trailing = a;
      whole = sym (replace-map path) ∙ eb ∙ ap (λ t. before ++ t) (ea ∙ ap (λ t. t ++ after) same);
      segments = parts_of q;
      good =
          subst (λ t. All IsSegment (parts_of t)) same
            (good-AreSegments (parts_of (trimmed path)) (parts_of-single (trimmed path)) good);
      joined = sym (join-parts_of q);
    }

-- A path is normalized to `q` just if, with its backslashes turned into slashes, it is `q` between
-- slashes, as many as there are on either side, and `q` is segments with one slash between any two,
-- each of them not empty, not `.` and not `..`; every other path throws.
pub normalize_repo_path_iff :
    (path q : Text) → (normalize_repo_path path ≡ ok q) ↔ IsNormalOf path q
normalize_repo_path_iff path q = (normal_sound path q, normal_complete path q)
