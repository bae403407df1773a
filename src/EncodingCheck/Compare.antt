-- ===== src/EncodingCheck/Compare.antt =====
-- The comparison of scripts/encoding_check.py: `main`, on the text of the package. Its exit code is
-- that of `check`, and `none` is a ValueError that `main` does not catch.
use risc_forge.Base.{
  ℕ, ◌+◌, Bool, true, false, ◌&&◌, not, List, [], ◌∷◌, Option, none, some, ◌==◌, if◌then◌else◌,
  length,
}
use mathlib.Core.List.{◌++◌}
use risc_forge.Base.Int.{ℤ, pos, negsuc}
use risc_forge.Base.Text.{Text, codes, lookup}
use risc_forge.Encoding.{xlen, f7_default, f7_alt, f12_ecall, f12_ebreak}
use risc_forge.Encoding.Members.{
  Members, opcode_members, f3_op_members, f3_branch_members, f3_load_members, f3_store_members,
  alu_op_members, alu_src_a_members, alu_src_b_members, wb_src_members, branch_op_members,
  mem_size_members,
}
use risc_forge.EncodingCheck.Package.{
  Dict, dict_set, after_prefix, and_then, parse_sv_enum, parse_sv_localparam,
}

-- The name of the SystemVerilog type, the members of the Python class, the prefix to strip
pub record Mapping : Type 0 where
  pub typedef_name : Text
  pub members : Members
  pub prefix : Text

-- What is appended to `errors`.
pub data Drift : Type 0 where
  bad_prefix : Text → Text → Drift
  disagree : Text → Dict → Drift
  param_differs : Text → ℤ → ℕ → Drift

abbrev mapping : Text → Members → Text → Mapping
mapping t m p = record { typedef_name = t; members = m; prefix = p }

-- `ENUM_MAPPINGS`
abbrev pub enum_mappings : List Mapping
enum_mappings =
    mapping (codes "opcode_e") opcode_members (codes "OP_")
    ∷ mapping (codes "funct3_op_e") f3_op_members (codes "F3_")
    ∷ mapping (codes "funct3_branch_e") f3_branch_members (codes "F3_")
    ∷ mapping (codes "funct3_load_e") f3_load_members (codes "F3_")
    ∷ mapping (codes "funct3_store_e") f3_store_members (codes "F3_")
    ∷ mapping (codes "alu_op_e") alu_op_members (codes "ALU_")
    ∷ mapping (codes "alu_src_a_e") alu_src_a_members (codes "ALU_A_")
    ∷ mapping (codes "alu_src_b_e") alu_src_b_members (codes "ALU_B_")
    ∷ mapping (codes "wb_src_e") wb_src_members (codes "WB_")
    ∷ mapping (codes "branch_op_e") branch_op_members (codes "BR_")
    ∷ mapping (codes "mem_size_e") mem_size_members (codes "MEM_")
    ∷ []

-- `LOCALPARAMS`, each with the attribute of the module
abbrev pub localparams : Members
localparams =
    (codes "XLEN", xlen)
    ∷ (codes "F7_DEFAULT", f7_default)
    ∷ (codes "F7_ALT", f7_alt)
    ∷ (codes "F12_ECALL", f12_ecall)
    ∷ (codes "F12_EBREAK", f12_ebreak)
    ∷ []

abbrev pub equals : ℤ → ℕ → Bool
equals (pos m) n = m == n
equals (negsuc m) n = false

-- The members without their prefix, and an error for each that has it not
unfoldable pub strip_prefixes : Text → Text → Dict → Dict → List Drift × Dict
strip_prefixes typedef_name prefix [] stripped = ([], stripped)
strip_prefixes typedef_name prefix ((name, v) ∷ members) stripped =
    elim (after_prefix prefix name) [
      | none ↦
          let rest = strip_prefixes typedef_name prefix members stripped in
          (bad_prefix typedef_name name ∷ rest.0, rest.1)
      | some short ↦ strip_prefixes typedef_name prefix members (dict_set short v stripped)
    ]

-- `int(m.value)` as an integer
abbrev pub py_members : Members → Dict
py_members [] = []
py_members ((name, n) ∷ members) = (name, pos n) ∷ py_members members

abbrev pub equals_opt : ℤ → Option ℤ → Bool
equals_opt v none = false
equals_opt v (some (pos n)) = equals v n
equals_opt (pos m) (some (negsuc n)) = false
equals_opt (negsuc m) (some (negsuc n)) = m == n

-- Every entry of the first dict is one of the second.
unfoldable pub entries_in : Dict → Dict → Bool
entries_in [] e = true
entries_in ((k, v) ∷ d) e = equals_opt v (lookup k e) && entries_in d e

-- `d == e` of two dicts: the same keys with equal values
unfoldable pub dict_eq : Dict → Dict → Bool
unfolding entries_in
dict_eq d e = entries_in d e && entries_in e d

abbrev pub disagreement : Text → Dict → Members → List Drift
disagreement typedef_name stripped members =
    if not (dict_eq stripped (py_members members)) then disagree typedef_name stripped ∷ [] else []

-- The errors of one mapping
unfoldable pub enum_errors : Mapping → Dict → List Drift
unfolding strip_prefixes dict_eq
enum_errors m sv_members =
    let (errors, stripped) = strip_prefixes m.typedef_name m.prefix sv_members [] in
    errors ++ disagreement m.typedef_name stripped m.members

-- The errors so far and the number of members, after the mappings
unfoldable pub check_enums : Text → List Mapping → List Drift → ℕ → Option (List Drift × ℕ)
unfolding parse_sv_enum enum_errors
check_enums sv_text [] errors total = some (errors, total)
check_enums sv_text (m ∷ mappings) errors total =
    and_then (parse_sv_enum sv_text m.typedef_name) λ sv_members.
      check_enums sv_text mappings (errors ++ enum_errors m sv_members) (total + length sv_members)

abbrev pub param_error : Text → ℤ → ℕ → List Drift
param_error name sv_val py_val =
    if not (equals sv_val py_val) then param_differs name sv_val py_val ∷ [] else []

unfoldable pub check_params : Text → Members → List Drift → Option (List Drift)
unfolding parse_sv_localparam
check_params sv_text [] errors = some errors
check_params sv_text ((name, py_val) ∷ params) errors =
    and_then (parse_sv_localparam sv_text name)
      λ sv_val. check_params sv_text params (errors ++ param_error name sv_val py_val)

-- What `main` prints and returns
pub record Report : Type 0 where
  pub errors : List Drift
  pub total_members : ℕ
  pub status : ℕ

abbrev pub exit_status : List Drift → ℕ
exit_status [] = 0
exit_status (_ ∷ _) = 1

abbrev pub report : List Drift → ℕ → Report
report errors total = record { errors = errors; total_members = total; status = exit_status errors }

unfoldable pub check : Text → Option Report
unfolding check_enums check_params
check sv_text = and_then (check_enums sv_text enum_mappings [] 0) λ enums.
    and_then (check_params sv_text localparams enums.0) λ errors. some (report errors enums.1)
