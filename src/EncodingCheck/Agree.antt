-- ===== src/EncodingCheck/Agree.antt =====
-- `main` of scripts/encoding_check.py returns 0 exactly when the package and the Python classes say
-- the same.
use mathlib.Core.List.{◌++◌}
use mathlib.Core.Option.{none-ne-some}
use risc_forge.Base.{
  ℕ, ◌+◌, true, List, [], ◌∷◌, Option, none, some, ◌≡◌, ◌↔◌, inl, inr, refl, sym, ◌∙◌, ap, arith,
  Option-cases, All, length,
}
use risc_forge.Base.Int.{ℤ, pos, negsuc}
use risc_forge.Base.Text.{Text, lookup}
use risc_forge.Encoding.Members.{Members}
use risc_forge.EncodingCheck.Package.{Dict, and_then, or_else, parse_sv_enum, parse_sv_localparam}
use risc_forge.EncodingCheck.Compare.{
  Mapping, Drift, strip_prefixes, py_members, dict_eq, disagreement, enum_errors, check_enums,
  check_params, param_error, Report, report, check, enum_mappings, localparams,
}
use risc_forge.EncodingCheck.Dicts.{UniqueKeys, dict_eq_iff}
use risc_forge.EncodingCheck.Prefixes.{
  HasPrefix, strip_prefixes-errors, strip_prefixes-UniqueKeys, lookup-strip_prefixes,
}
use risc_forge.EncodingCheck.Unique.{unique_of, parse_sv_enum-KeepsUnique}

-- The number that the package gives to a name with its prefix is the one that the class gives to
-- the name, and every name of the package has the prefix.
abbrev pub EnumAgrees : Text → Mapping → Type 0
EnumAgrees sv_text m =
    (d : Dict) × (parse_sv_enum sv_text m.typedef_name ≡ some d)
    × All (HasPrefix m.prefix) d
    × ((k : Text) → lookup (m.prefix ++ k) d ≡ lookup k (py_members m.members))

abbrev pub ParamAgrees : Text → Text × ℕ → Type 0
ParamAgrees sv_text (name, n) = parse_sv_localparam sv_text name ≡ some (pos n)

append-nil_iff : (xs ys : List Drift) → (xs ++ ys ≡ []) ↔ ((xs ≡ []) × (ys ≡ []))
append-nil_iff [] ys = ground arith
append-nil_iff (x ∷ xs) ys = ground arith

or_else-none : (o : Option ℤ) → or_else o none ≡ o
or_else-none none = refl
or_else-none (some v) = refl

disagreement_iff :
    (t : Text) (d : Dict) (members : Members)
    → (disagreement t d members ≡ []) ↔ (dict_eq d (py_members members) ≡ true)
disagreement_iff t d members = ground arith

enum_errors_iff :
    (m : Mapping) (d : Dict)
    → UniqueKeys d
    → UniqueKeys (py_members m.members)
    → (enum_errors m d ≡ []) ↔ (
        All (HasPrefix m.prefix) d
        × ((k : Text) → lookup (m.prefix ++ k) d ≡ lookup k (py_members m.members)))
unfolding enum_errors
enum_errors_iff m d u v =
    let s = strip_prefixes m.typedef_name m.prefix d [] in
    let split = append-nil_iff s.0 (disagreement m.typedef_name s.1 m.members) in
    let prefixes = strip_prefixes-errors m.typedef_name m.prefix d [] in
    let same =
      dict_eq_iff s.1 (py_members m.members)
        (strip_prefixes-UniqueKeys m.typedef_name m.prefix d [] tt) v in
    let clean = disagreement_iff m.typedef_name s.1 m.members in
    let found : (k : Text) → lookup k s.1 ≡ lookup (m.prefix ++ k) d = λ k.
      lookup-strip_prefixes m.typedef_name m.prefix d [] k u
      ∙ or_else-none (lookup (m.prefix ++ k) d) in
    (
      λ h. (prefixes.0 (split.0 h).0, λ k. sym (found k) ∙ same.0 (clean.0 (split.0 h).1) k),
      λ h. split.1 (prefixes.1 h.0, clean.1 (same.1 (λ k. found k ∙ h.1 k))),
    )

-- Nothing is appended for the mapping.
abbrev Clean : Text → Mapping → Type 0
Clean sv_text m =
    (d : Dict) × (parse_sv_enum sv_text m.typedef_name ≡ some d) × (enum_errors m d ≡ [])

Clean-iff :
    (sv_text : Text) (m : Mapping)
    → UniqueKeys (py_members m.members)
    → Clean sv_text m ↔ EnumAgrees sv_text m
Clean-iff sv_text m v =
    let unique = λ (d : Dict) (e : parse_sv_enum sv_text m.typedef_name ≡ some d).
      unique_of _ d (parse_sv_enum-KeepsUnique sv_text m.typedef_name) e in
    (
      λ (d, e, h). let r = (enum_errors_iff m d (unique d e) v).0 h in (d, e, r.0, r.1),
      λ (d, e, p, h). (d, e, (enum_errors_iff m d (unique d e) v).1 (p, h)),
    )

some_inj {ℓ} : {A : Type ℓ} (a b : A) → some a ≡ some b → a ≡ b
some_inj a b h = cc

param_error_iff : (name : Text) (v : ℤ) (n : ℕ) → (param_error name v n ≡ []) ↔ (v ≡ pos n)
param_error_iff name (pos m) n = ground arith
param_error_iff name (negsuc m) n = ground arith

-- The check of the mappings returns with no error.
check_enums-Clean :
    (sv_text : Text) (ms : List Mapping) (errors : List Drift) (total : ℕ)
    → ((n : ℕ) × (check_enums sv_text ms errors total ≡ some ([], n)))
      ↔ ((errors ≡ []) × All (Clean sv_text) ms)
unfolding check_enums
check_enums-Clean sv_text [] errors total = (λ (n, e). (cc, tt), λ (e, _). (total, rw e refl))
check_enums-Clean sv_text (m ∷ ms) errors total =
    elim (Option-cases (parse_sv_enum sv_text m.typedef_name)) [
      | inl e ↦
          rw e (λ (n, h). absurd (ground arith), λ (h, ((d, bad, _), rest)). absurd (ground arith))
      | inr (d, e) ↦
          let ih = check_enums-Clean sv_text ms (errors ++ enum_errors m d) (total + length d) in
          let split = append-nil_iff errors (enum_errors m d) in
          rw e (
            λ h. let r = ih.0 h in let q = split.0 r.0 in (q.0, ((d, refl, q.1), r.1)),
            λ (h, ((x, same, clean), rest)).
                ih.1 (split.1 (h, ap (enum_errors m) (some_inj d x same) ∙ clean), rest),
          )
    ]

check_params-Clean :
    (sv_text : Text) (ps : Members) (errors : List Drift)
    → (check_params sv_text ps errors ≡ some []) ↔ ((errors ≡ []) × All (ParamAgrees sv_text) ps)
unfolding check_params
check_params-Clean sv_text [] errors = ground arith
check_params-Clean sv_text ((name, n) ∷ ps) errors =
    elim (Option-cases (parse_sv_localparam sv_text name)) [
      | inl e ↦ rw e (λ h. absurd (ground arith), λ (h, (bad, rest)). absurd (ground arith))
      | inr (v, e) ↦
          let ih = check_params-Clean sv_text ps (errors ++ param_error name v n) in
          let split = append-nil_iff errors (param_error name v n) in
          let same = param_error_iff name v n in
          rw e (
            λ h. let r = ih.0 h in let q = split.0 r.0 in (q.0, (ap some (same.0 q.1), r.1)),
            λ (h, (here, rest)). ih.1 (split.1 (h, same.1 (some_inj v (pos n) here)), rest),
          )
    ]

All-iff {ℓ} :
    {A : Type ℓ} (P Q : A → Type 0) (xs : List A) → All (λ x. P x ↔ Q x) xs → All P xs ↔ All Q xs
All-iff P Q [] h = (λ u. u, λ u. u)
All-iff P Q (x ∷ xs) (h, rest) =
    let ih = All-iff P Q xs rest in (λ (p, ps). (h.0 p, ih.0 ps), λ (q, qs). (h.1 q, ih.1 qs))

All-map {ℓ} :
    {A : Type ℓ} (P Q : A → Type 0) (xs : List A) → ((x : A) → P x → Q x) → All P xs → All Q xs
All-map P Q [] f h = tt
All-map P Q (x ∷ xs) f (h, rest) = (f x h, All-map P Q xs f rest)

classes_unique : All (λ m. UniqueKeys (py_members m.members)) enum_mappings
classes_unique = ground arith

-- The classes have no member twice, so each mapping is clean exactly when it agrees.
mappings-Clean : (sv_text : Text) → All (λ m. Clean sv_text m ↔ EnumAgrees sv_text m) enum_mappings
mappings-Clean sv_text =
    All-map (λ m. UniqueKeys (py_members m.members)) (λ m. Clean sv_text m ↔ EnumAgrees sv_text m)
      enum_mappings (λ m u. Clean-iff sv_text m u) classes_unique

and_then-eq-some {ℓ κ} :
    {A : Type ℓ} {B : Type κ} (o : Option A) (f : A → Option B) (b : B)
    → and_then o f ≡ some b
    → (a : A) × (o ≡ some a) × (f a ≡ some b)
and_then-eq-some none f b h = absurd (none-ne-some b h)
and_then-eq-some (some a) f b h = (a, refl, h)

status-zero :
    (errors : List Drift) (n : ℕ) (rep : Report)
    → some (report errors n) ≡ some rep
    → rep.status ≡ 0
    → errors ≡ []
status-zero errors n rep h zero = ground arith

-- The package and the classes agree on every mapping and every constant.
abbrev pub Agrees : Text → Type 0
Agrees sv_text = All (EnumAgrees sv_text) enum_mappings × All (ParamAgrees sv_text) localparams

abbrev then_params : Text → List Drift × ℕ → Option Report
then_params sv_text enums =
    and_then (check_params sv_text localparams enums.0) λ errors. some (report errors enums.1)

-- For every text of the package: `main` returns 0, with no ValueError, exactly when each of the mapped
-- types is found, each of its members has the prefix, and it gives to each name the number that
-- the Python class gives to it, or none where the class has none; and each of the constants is
-- found, with Python's value.
pub check-status :
    (sv_text : Text)
    → ((rep : Report) × (check sv_text ≡ some rep) × (rep.status ≡ 0)) ↔ Agrees sv_text
unfolding check
check-status sv_text = (to, from)
  where
    to : ((rep : Report) × (check sv_text ≡ some rep) × (rep.status ≡ 0)) → Agrees sv_text
    to (rep, e, zero) =
        let (enums, e1, rest) =
          and_then-eq-some (check_enums sv_text enum_mappings [] 0) (then_params sv_text) rep e in
        let (errors, e2, made) =
          and_then-eq-some (check_params sv_text localparams enums.0)
            (λ errors. some (report errors enums.1)) rep rest in
        let none_left : errors ≡ [] = status-zero errors enums.1 rep made zero in
        let (first, params) =
          (check_params-Clean sv_text localparams enums.0).0 (e2 ∙ ap some none_left) in
        let start : check_enums sv_text enum_mappings [] 0 ≡ some ([], enums.1) =
          e1 ∙ ap (λ (l : List Drift). some (l, enums.1)) first in
        let (_, clean) = (check_enums-Clean sv_text enum_mappings [] 0).0 (enums.1, start) in
        (
          (All-iff (Clean sv_text) (EnumAgrees sv_text) enum_mappings (mappings-Clean sv_text)).0
              clean,
          params,
        )

    from : Agrees sv_text → (rep : Report) × (check sv_text ≡ some rep) × (rep.status ≡ 0)
    from (mappings, params) =
        let clean =
          (All-iff (Clean sv_text) (EnumAgrees sv_text) enum_mappings (mappings-Clean sv_text)).1
            mappings in
        let (n, e1) = (check_enums-Clean sv_text enum_mappings [] 0).1 (refl, clean) in
        let e2 = (check_params-Clean sv_text localparams []).1 (refl, params) in
        (report [] n, rw (e1, e2) refl, refl)
