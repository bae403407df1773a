-- ===== src/EncodingCheck/Dicts.antt =====
-- The dicts of scripts/encoding_check.py: assignment, unique keys and equality.
use risc_forge.Base.{
  true, ◌&&◌, [], ◌∷◌, Option, none, some, ◌≡◌, ◌↔◌, inl, inr, refl, sym, ◌∙◌, arith, if◌then◌else◌,
  Option-cases,
}
use risc_forge.Base.Int.{ℤ, pos, negsuc}
use risc_forge.Base.Text.{Text, lookup, text_eq, text_eq_iff}
use risc_forge.EncodingCheck.Package.{Dict, dict_set}
use risc_forge.EncodingCheck.Compare.{equals_opt, entries_in, dict_eq}

-- No key is in the dict twice.
abbrev pub UniqueKeys : Dict → Type 0
UniqueKeys [] = Unit
UniqueKeys ((k, v) ∷ d) = (lookup k d ≡ none) × UniqueKeys d

pub text_eq_refl : (s : Text) → text_eq s s ≡ true
text_eq_refl s = (text_eq_iff s s).1 refl

pub lookup-dict_set :
    (j k : Text) (v : ℤ) (d : Dict)
    → lookup j (dict_set k v d) ≡ (if text_eq k j then some v else lookup j d)
unfolding dict_set
lookup-dict_set j k v [] = refl
lookup-dict_set j k v ((i, w) ∷ d) =
    ground (arith, text_eq_iff k j, text_eq_iff i k, text_eq_iff i j, lookup-dict_set j k v d)

pub dict_set-UniqueKeys : (k : Text) (v : ℤ) (d : Dict) → UniqueKeys d → UniqueKeys (dict_set k v d)
unfolding dict_set
dict_set-UniqueKeys k v [] h = (refl, tt)
dict_set-UniqueKeys k v ((i, w) ∷ d) (fresh, h) =
    ground (
      arith,
      text_eq_iff i k,
      text_eq_iff k i,
      lookup-dict_set i k v d,
      dict_set-UniqueKeys k v d h,
    )

equals_opt_iff : (v : ℤ) (o : Option ℤ) → (equals_opt v o ≡ true) ↔ (o ≡ some v)
equals_opt_iff v none = ground arith
equals_opt_iff (pos m) (some (pos n)) = ground arith
equals_opt_iff (negsuc m) (some (pos n)) = ground arith
equals_opt_iff (pos m) (some (negsuc n)) = ground arith
equals_opt_iff (negsuc m) (some (negsuc n)) = ground arith

-- What the first dict has, the second has.
entries_in-lookup :
    (d e : Dict) (k : Text) (v : ℤ)
    → entries_in d e ≡ true
    → lookup k d ≡ some v
    → lookup k e ≡ some v
unfolding entries_in
entries_in-lookup [] e k v h found = cc
entries_in-lookup ((j, w) ∷ d) e k v h found =
    ground (arith, text_eq_iff j k, equals_opt_iff w (lookup j e), entries_in-lookup d e k v)

-- The other way, where the keys are unique.
lookup-entries_in :
    (d e : Dict)
    → UniqueKeys d
    → ((k : Text) (v : ℤ) → lookup k d ≡ some v → lookup k e ≡ some v)
    → entries_in d e ≡ true
unfolding entries_in
lookup-entries_in [] e u h = refl
lookup-entries_in ((j, w) ∷ d) e (fresh, u) h =
    let here : lookup j e ≡ some w = h j w (rw (text_eq_refl j) refl) in
    let rest = lookup-entries_in d e u (λ k v found. h k v (ground (arith, text_eq_iff j k))) in
    ground (arith, equals_opt_iff w (lookup j e))

-- Two dicts with unique keys are equal exactly when every key has the same value, or none, in both.
pub dict_eq_iff :
    (d e : Dict)
    → UniqueKeys d
    → UniqueKeys e
    → (dict_eq d e ≡ true) ↔ ((k : Text) → lookup k d ≡ lookup k e)
unfolding dict_eq
dict_eq_iff d e ud ue = (to, from)
  where
    to : (entries_in d e && entries_in e d) ≡ true → (k : Text) → lookup k d ≡ lookup k e
    to h k = elim (Option-cases (lookup k d)) [
      | inr (v, found) ↦ found ∙ sym (entries_in-lookup d e k v (ground arith) found)
      | inl missing ↦ elim (Option-cases (lookup k e)) [
        | inl also ↦ missing ∙ sym also
        | inr (v, found) ↦ absurd (ground (arith, entries_in-lookup e d k v (ground arith) found))
      ]
    ]

    from : ((k : Text) → lookup k d ≡ lookup k e) → (entries_in d e && entries_in e d) ≡ true
    from h =
        let a = lookup-entries_in d e ud (λ k v found. sym (h k) ∙ found) in
        let b = lookup-entries_in e d ue (λ k v found. h k ∙ found) in rw (a, b) refl
