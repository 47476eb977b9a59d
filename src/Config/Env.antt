-- ===== src/Config/Env.antt =====
-- The lines of include/utils/config/env_loader.hpp.
use hft_system.Prelude.{
  ℕ, ◌==◌, ◌≡◌, refl, arith, [], ◌∷◌, ◌++◌, some, true, false, All, all_nil, all_cons, All-append,
  ap, ap₂, sym, ◌∙◌,
}
use hft_system.Registry.{Bytes}
use hft_system.WebSocket.Handshake.{starts_with}
use hft_system.Config.{trim_parts, is_space, trim_left, trim_right, split_eq, env_line}

abbrev pub Spaces : Bytes → Type 0
Spaces = All (λ c. is_space c ≡ true)

-- The first byte of a text is one, and it is no space.
abbrev pub StartsTight : Bytes → Type 0
StartsTight [] = ⊥
StartsTight (c ∷ cs) = is_space c ≡ false

abbrev pub EndsTight : Bytes → Type 0
EndsTight [] = Unit
EndsTight (c ∷ []) = is_space c ≡ false
EndsTight (c ∷ d ∷ ds) = EndsTight (d ∷ ds)

trim_left-append : (spaces s : Bytes) → Spaces spaces → trim_left (spaces ++ s) ≡ trim_left s
unfolding trim_left
trim_left-append [] s all_nil = refl
trim_left-append (c ∷ cs) s (all_cons h all) = rw h (trim_left-append cs s all)

trim_left_tight : (s rest : Bytes) → StartsTight s → trim_left (s ++ rest) ≡ s ++ rest
unfolding trim_left
trim_left_tight [] rest h = absurd h
trim_left_tight (c ∷ cs) rest h = rw h refl

trim_right_all : (spaces : Bytes) → Spaces spaces → trim_right spaces ≡ []
unfolding trim_right
trim_right_all [] all_nil = refl
trim_right_all (c ∷ cs) (all_cons h all) = rw (trim_right, trim_right_all cs all, h) refl

trim_right-append : (s spaces : Bytes) → Spaces spaces → EndsTight s → trim_right (s ++ spaces) ≡ s
unfolding trim_right
trim_right-append [] spaces all h = trim_right_all spaces all
trim_right-append (c ∷ []) spaces all h = rw (trim_right, trim_right_all spaces all, h) refl
trim_right-append (c ∷ d ∷ ds) spaces all h =
    rw (trim_right, trim_right-append (d ∷ ds) spaces all h) refl

-- A text padded with spaces on both sides is trimmed to itself.
trim_padded :
    (before s after : Bytes)
    → Spaces before
    → Spaces after
    → StartsTight s
    → EndsTight s
    → trim_right (trim_left (before ++ (s ++ after))) ≡ s
trim_padded before s after b a h k =
    ap trim_right (trim_left-append before (s ++ after) b ∙ trim_left_tight s after h)
    ∙ trim_right-append s after a k

abbrev pub NoEq : Bytes → Type 0
NoEq = All (λ c. (c == b'=') ≡ false)

split_eq_found : (k v : Bytes) → NoEq k → split_eq (k ++ (b'=' ∷ v)) ≡ some (k, v)
unfolding split_eq
split_eq_found [] v all_nil = refl
split_eq_found (c ∷ cs) v (all_cons h all) = rw (split_eq_found cs v all, h) refl

Spaces-NoEq : (s : Bytes) → Spaces s → NoEq s
unfolding is_space
Spaces-NoEq [] all_nil = all_nil
Spaces-NoEq (c ∷ cs) (all_cons h all) = all_cons (ground arith) (Spaces-NoEq cs all)

env_line_lem :
    (c : ℕ) (cs k v : Bytes)
    → split_eq (c ∷ cs) ≡ some (k, v)
    → (c == b'#') ≡ false
    → env_line (c ∷ cs) ≡ some (trim_right (trim_left k), trim_right (trim_left v))
unfolding env_line trim_parts
env_line_lem c cs k v h ne = rw (ne, h) refl

-- The line of a key and a value with white space round both.
abbrev pub assignment : Bytes → Bytes → Bytes → Bytes → Bytes → Bytes → Bytes
assignment s1 k s2 s3 v s4 = (s1 ++ (k ++ s2)) ++ (b'=' ∷ (s3 ++ (v ++ s4)))

not_comment :
    (s1 k s2 rest : Bytes)
    → Spaces s1
    → StartsTight k
    → starts_with (b'#' ∷ []) k ≡ false
    → (c : ℕ) × (cs : Bytes) × ((s1 ++ (k ++ s2)) ++ rest ≡ c ∷ cs) × ((c == b'#') ≡ false)
unfolding is_space starts_with
not_comment [] [] s2 rest all h ne = absurd h
not_comment [] (c ∷ cs) s2 rest all h ne = (c, (cs ++ s2) ++ rest, refl, ground arith)
not_comment (c ∷ cs) k s2 rest (all_cons space all) h ne =
    (c, (cs ++ (k ++ s2)) ++ rest, refl, ground arith)

-- A line of a key, an equals sign and a value, with white space round both, sets the key to the
-- value, if both begin and end with something else than white space, the key holds no equals sign
-- and does not begin with #.
pub env_line-assignment :
    (s1 k s2 s3 v s4 : Bytes)
    → Spaces s1
    → Spaces s2
    → Spaces s3
    → Spaces s4
    → StartsTight k
    → EndsTight k
    → NoEq k
    → starts_with (b'#' ∷ []) k ≡ false
    → StartsTight v
    → EndsTight v
    → env_line (assignment s1 k s2 s3 v s4) ≡ some (k, v)
env_line-assignment s1 k s2 s3 v s4 a1 a2 a3 a4 k_start k_end no_eq ne v_start v_end =
    let (c, cs, e, other) = not_comment s1 k s2 (b'=' ∷ (s3 ++ (v ++ s4))) a1 k_start ne in
    let cut =
      split_eq_found (s1 ++ (k ++ s2)) (s3 ++ (v ++ s4))
        (All-append _ (Spaces-NoEq s1 a1) (All-append _ no_eq (Spaces-NoEq s2 a2))) in
    ap env_line e
    ∙ env_line_lem c cs _ _ (ap split_eq (sym e) ∙ cut) other
    ∙ ap₂ (λ x y. some (x, y)) (trim_padded s1 k s2 a1 a2 k_start k_end)
        (trim_padded s3 v s4 a3 a4 v_start v_end)
