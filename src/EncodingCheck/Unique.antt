-- ===== src/EncodingCheck/Unique.antt =====
-- `parse_sv_enum` of scripts/encoding_check.py returns a dict: no name is in it twice.
use risc_forge.Base.{List, [], ◌∷◌, Option, none, some, ◌≡◌, refl, subst}
use risc_forge.Base.Text.{Text, strip}
use risc_forge.EncodingCheck.Literal.{parse_sv_int_literal}
use risc_forge.EncodingCheck.Package.{
  Dict, dict_set, and_then, parse_sv_enum, parse_members, partition_eq, above_close, below_open,
  strip_slashes, add_member, member_of, rstrip_commas,
}
use risc_forge.Base.Scan.{split_lines}
use risc_forge.EncodingCheck.Dicts.{UniqueKeys, dict_set-UniqueKeys}

-- A dict that is returned has unique keys.
abbrev pub KeepsUnique : Option Dict → Type 0
KeepsUnique none = Unit
KeepsUnique (some d) = UniqueKeys d

and_then-KeepsUnique {ℓ} :
    {A : Type ℓ} (P : A → Type 0) (o : Option A) (f : A → Option Dict)
    → ((a : A) → o ≡ some a → P a)
    → ((a : A) → P a → KeepsUnique (f a))
    → KeepsUnique (and_then o f)
and_then-KeepsUnique P none f g h = tt
and_then-KeepsUnique P (some a) f g h = h a (g a refl)

pub unique_of : (o : Option Dict) (d : Dict) → KeepsUnique o → o ≡ some d → UniqueKeys d
unique_of o d h e = subst KeepsUnique e h

member_of-KeepsUnique :
    (p : Text × Text) (members : Dict) → UniqueKeys members → KeepsUnique (member_of p members)
member_of-KeepsUnique (name, val) members u =
    and_then-KeepsUnique (λ _. Unit) (parse_sv_int_literal (strip val))
      (λ v. some (dict_set (strip name) v members)) (λ _ _. tt)
      (λ v _. dict_set-UniqueKeys (strip name) v members u)

add_member-KeepsUnique :
    (line : Text) (members : Dict) → UniqueKeys members → KeepsUnique (add_member line members)
unfolding add_member
add_member-KeepsUnique [] members u = u
add_member-KeepsUnique (c ∷ s) members u =
    and_then-KeepsUnique (λ _. Unit) (partition_eq (c ∷ s)) (λ p. member_of p members) (λ _ _. tt)
      (λ p _. member_of-KeepsUnique p members u)

parse_members-KeepsUnique :
    (lines : List Text) (members : Dict)
    → UniqueKeys members
    → KeepsUnique (parse_members lines members)
unfolding parse_members
parse_members-KeepsUnique [] members u = u
parse_members-KeepsUnique (raw ∷ lines) members u =
    let line = strip (rstrip_commas (strip (strip_slashes raw))) in
    and_then-KeepsUnique UniqueKeys (add_member line members) (parse_members lines)
      (λ d e. unique_of (add_member line members) d (add_member-KeepsUnique line members u) e)
      (λ d v. parse_members-KeepsUnique lines d v)

pub parse_sv_enum-KeepsUnique : (sv_text name : Text) → KeepsUnique (parse_sv_enum sv_text name)
unfolding parse_sv_enum
parse_sv_enum-KeepsUnique sv_text name =
    and_then-KeepsUnique (λ _. Unit) (above_close name [] (split_lines sv_text))
      (λ above. and_then (below_open [] above) λ between. parse_members between []) (λ _ _. tt)
      (λ above _.
        and_then-KeepsUnique (λ _. Unit) (below_open [] above) (λ between. parse_members between [])
          (λ _ _. tt) (λ between _. parse_members-KeepsUnique between [] tt))
