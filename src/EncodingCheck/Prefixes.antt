-- ===== src/EncodingCheck/Prefixes.antt =====
-- What the stripped dict of `main` in scripts/encoding_check.py holds.
use mathlib.Core.List.{◌++◌}
use risc_forge.Base.{
  false, [], ◌∷◌, none, some, ◌≡◌, ◌≢◌, ◌↔◌, inl, inr, refl, sym, ◌∙◌, ap, arith, Bool-cases,
  Option-cases, All,
}
use risc_forge.Base.Int.{ℤ}
use risc_forge.Base.Text.{Text, lookup, text_eq, text_eq_iff}
use risc_forge.EncodingCheck.Package.{Dict, dict_set, after_prefix, or_else}
use risc_forge.EncodingCheck.Compare.{bad_prefix, strip_prefixes}
use risc_forge.EncodingCheck.Dicts.{UniqueKeys, lookup-dict_set, dict_set-UniqueKeys}

pub after_prefix_iff : (p s r : Text) → (after_prefix p s ≡ some r) ↔ (s ≡ p ++ r)
after_prefix_iff [] s r = ground arith
after_prefix_iff (c ∷ p) [] r = ground arith
after_prefix_iff (c ∷ p) (a ∷ s) r = ground (arith, after_prefix_iff p s r)

abbrev pub HasPrefix : Text → Text × ℤ → Type 0
HasPrefix p entry = (k : Text) × (entry.0 ≡ p ++ k)

after_prefix-none : (p k : Text) → after_prefix p (p ++ k) ≢ none
after_prefix-none p k h = cc ((after_prefix_iff p (p ++ k) k).1 refl)

module _ (t p name : Text) (v : ℤ) (d acc : Dict) where
  strip_prefixes-skip :
      after_prefix p name ≡ none
      → strip_prefixes t p ((name, v) ∷ d) acc
        ≡ (bad_prefix t name ∷ (strip_prefixes t p d acc).0, (strip_prefixes t p d acc).1)
  unfolding strip_prefixes
  strip_prefixes-skip e = ground arith

  strip_prefixes-take :
      (k : Text)
      → after_prefix p name ≡ some k
      → strip_prefixes t p ((name, v) ∷ d) acc ≡ strip_prefixes t p d (dict_set k v acc)
  unfolding strip_prefixes
  strip_prefixes-take k e = ground arith

pub strip_prefixes-errors :
    (t p : Text) (d acc : Dict) → ((strip_prefixes t p d acc).0 ≡ []) ↔ All (HasPrefix p) d
unfolding strip_prefixes
strip_prefixes-errors t p [] acc = ground arith
strip_prefixes-errors t p ((name, v) ∷ d) acc = elim (Option-cases (after_prefix p name)) [
  | inl e ↦
      rw (strip_prefixes-skip t p name v d acc e)
        (λ h. cc, λ h. absurd (after_prefix-none p h.0.0 (ap (after_prefix p) (sym h.0.1) ∙ e)))
  | inr (k, e) ↦
      let ih = strip_prefixes-errors t p d (dict_set k v acc) in
      rw (strip_prefixes-take t p name v d acc k e)
        (λ h. ((k, (after_prefix_iff p name k).0 e), ih.0 h), λ h. ih.1 h.1)
]

pub strip_prefixes-UniqueKeys :
    (t p : Text) (d acc : Dict) → UniqueKeys acc → UniqueKeys (strip_prefixes t p d acc).1
unfolding strip_prefixes
strip_prefixes-UniqueKeys t p [] acc h = h
strip_prefixes-UniqueKeys t p ((name, v) ∷ d) acc h = elim (Option-cases (after_prefix p name)) [
  | inl e ↦ rw (strip_prefixes-skip t p name v d acc e) (strip_prefixes-UniqueKeys t p d acc h)
  | inr (k, e) ↦
      rw (strip_prefixes-take t p name v d acc k e)
        (strip_prefixes-UniqueKeys t p d (dict_set k v acc) (dict_set-UniqueKeys k v acc h))
]

text_eq-append : (p a b : Text) → text_eq (p ++ a) (p ++ b) ≡ text_eq a b
text_eq-append [] a b = refl
text_eq-append (c ∷ p) a b = ground (arith, text_eq-append p a b)

-- The entry that is taken counts before and after its prefix is stripped.
same_value :
    (p name k short : Text) (v : ℤ) (d acc : Dict)
    → lookup name d ≡ none
    → name ≡ p ++ short
    → or_else (lookup (p ++ k) d) (lookup k (dict_set short v acc))
      ≡ or_else (lookup (p ++ k) ((name, v) ∷ d)) (lookup k acc)
same_value p name k short v d acc fresh whole =
    let same : text_eq name (p ++ k) ≡ text_eq short k =
      ap (λ (s : Text). text_eq s (p ++ k)) whole ∙ text_eq-append p short k in
    elim (Bool-cases (text_eq short k)) [
      | inl e ↦
          let key : p ++ k ≡ name =
            ap (λ (s : Text). p ++ s) (sym ((text_eq_iff short k).0 e)) ∙ sym whole in
          let gone : lookup (p ++ k) d ≡ none = ap (λ (s : Text). lookup s d) key ∙ fresh in
          rw (lookup-dict_set k short v acc, same, e, gone) refl
      | inr e ↦ rw (lookup-dict_set k short v acc, same, e) refl
    ]

pub lookup-strip_prefixes :
    (t p : Text) (d acc : Dict) (k : Text)
    → UniqueKeys d
    → lookup k (strip_prefixes t p d acc).1 ≡ or_else (lookup (p ++ k) d) (lookup k acc)
unfolding strip_prefixes
lookup-strip_prefixes t p [] acc k u = refl
lookup-strip_prefixes t p ((name, v) ∷ d) acc k (fresh, u) =
    elim (Option-cases (after_prefix p name)) [
      | inl e ↦
          let apart : text_eq name (p ++ k) ≡ false =
            ground (arith, text_eq_iff name (p ++ k), after_prefix-none p k) in
          rw (strip_prefixes-skip t p name v d acc e, apart) (lookup-strip_prefixes t p d acc k u)
      | inr (short, e) ↦
          let whole : name ≡ p ++ short = (after_prefix_iff p name short).0 e in
          rw (strip_prefixes-take t p name v d acc short e) (
            lookup-strip_prefixes t p d (dict_set short v acc) k u
            ∙ same_value p name k short v d acc fresh whole)
    ]
