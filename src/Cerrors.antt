-- ===== src/Cerrors.antt =====
-- chapi2/cerrors/cerrors.go: the errors of CHAPI and how NewChapiError makes one from its arguments.
-- A ChapiError has an address in a heap, since NewChapiError returns the object of a pointer that it
-- is given, after changing it. A text is a list of ASCII codes; a code is an unsigned number of 32
-- bits and is only compared.
pub mod Arguments
pub mod Made
mod Tests
use common_host_libs.Prelude.{
  ℕ, zero, suc, ◌+◌, ◌/◌, ◌%◌, Bool, true, false, ◌&&◌, List, [], ◌∷◌, ◌++◌, Option, none, some,
  ltb, ◌==◌, if◌then◌else◌,
}
use common_host_libs.Prelude.Text.{Text, codes, is_nil, decimal}

abbrev pub internal : ℕ
internal = 10

abbrev pub unknown : ℕ
unknown = 2

-- `_maxCode`
abbrev pub max_code : ℕ
max_code = 15

pub record ChapiError : Type 0 where
  pub code : ℕ
  pub text : Text

pub record Heap : Type 0 where
  pub cells : ℕ → ChapiError
  pub next : ℕ

abbrev pub store : (ℕ → ChapiError) → ℕ → ChapiError → ℕ → ChapiError
store h p e q = if p == q then e else h q

-- String; the cases of the switch, and ten digits for the other codes.
unfoldable pub code_string : ℕ → Text
code_string c =
    if c == 0
    then codes "OK"
    else if c == 1
    then codes "Canceled"
    else if c == 2
    then codes "Unknown"
    else if c == 3
    then codes "InvalidArgument"
    else if c == 4
    then codes "NotFound"
    else if c == 5
    then codes "AlreadyExists"
    else if c == 6
    then codes "PermissionDenied"
    else if c == 7
    then codes "ResourceExhausted"
    else if c == 8
    then codes "Aborted"
    else if c == 9
    then codes "Unimplemented"
    else if c == 10
    then codes "Internal"
    else if c == 11
    then codes "DataLoss"
    else if c == 12
    then codes "Unauthenticated"
    else if c == 13
    then codes "Timeout"
    else if c == 14
    then codes "ConnectionFailed"
    else codes "Code(" ++ (decimal 10 c ++ codes ")")

-- An argument by its type: a ChapiErrorCode, a string, a ChapiError, a *ChapiError (`none` for nil),
-- another error with what its Error method returns, or a value of another type.
pub data Arg : Type 0 where
  of_code : ℕ → Arg
  of_string : Text → Arg
  of_value : ChapiError → Arg
  of_pointer : Option ℕ → Arg
  of_error : Text → Arg
  of_other : Arg

-- The local variables that the loop over the arguments fills.
pub record Options : Type 0 where
  pub heap : Heap
  pub chapi_error : Option ℕ
  pub other_error : Option Text
  pub error_code : ℕ
  pub error_message : Text

abbrev pub alloc : Heap → ChapiError → Heap
alloc h e = record { cells = store h.cells h.next e; next = suc h.next }

-- One round of the loop; the copy of a ChapiError is a new object.
unfoldable pub parse_arg : Options → Arg → Options
parse_arg o (of_code c) = record o { error_code = c }
parse_arg o (of_string s) = record o { error_message = s }
parse_arg o (of_value e) = record o { heap = alloc o.heap e; chapi_error = some o.heap.next }
parse_arg o (of_pointer p) = record o { chapi_error = p }
parse_arg o (of_error s) = record o { other_error = some s }
parse_arg o of_other = o

unfoldable pub parse_args : Options → List Arg → Options
parse_args o [] = o
parse_args o (a ∷ args) = parse_args (parse_arg o a) args

abbrev pub no_options : Heap → Options
no_options h = record {
  heap = h;
  chapi_error = none;
  other_error = none;
  error_code = max_code;
  error_message = [];
}

-- The error to start from: the one given, or a new one with the text that is given.
abbrev pub initial : Options → Heap × ℕ
initial o = elim o.chapi_error [
  | some p ↦ (o.heap, p)
  | none ↦ elim o.other_error [
    | some s ↦ (alloc o.heap (record { code = max_code; text = s }), o.heap.next)
    | none ↦ (alloc o.heap (record { code = max_code; text = o.error_message }), o.heap.next)
  ]
]

abbrev pub with_code : ℕ → ChapiError → ChapiError
with_code c e = if ltb c max_code then record e { code = c } else e

-- The two steps at the end that fill what is still empty.
abbrev pub filled : ChapiError → ChapiError
filled e =
    let c = if e.code == max_code then unknown else e.code in
    record { code = c; text = if is_nil e.text then code_string c else e.text }

abbrev pub generic : ChapiError
generic = record { code = internal; text = codes "invalid input parameters" }

-- The object at an address with its last values: the generic error in place of an empty one.
abbrev pub finished : Heap → ℕ → ChapiError → Heap × ℕ
finished h p e =
    if e.code == max_code && is_nil e.text
    then (alloc h generic, h.next)
    else (record h { cells = store h.cells p (filled e) }, p)

-- The error with the code that is given, and the heap where it stands.
abbrev pub coded : Options → ChapiError
coded o = with_code o.error_code ((initial o).0.cells (initial o).1)

abbrev pub with_coded : Options → Heap
with_coded o = record (initial o).0 { cells = store (initial o).0.cells (initial o).1 (coded o) }

-- NewChapiError, with the address of the error that it returns.
unfoldable pub new_chapi_error : Heap → List Arg → Heap × ℕ
unfolding parse_args
new_chapi_error h args =
    let o = parse_args (no_options h) args in finished (with_coded o) (initial o).1 (coded o)

-- ErrorCode and ErrorText, of a pointer that may be nil.
unfoldable pub error_code : Heap → Option ℕ → ℕ
error_code h none = 0
error_code h (some p) = (h.cells p).code

unfoldable pub error_text : Heap → Option ℕ → Text
error_text h none = []
error_text h (some p) = (h.cells p).text

-- Error; `none` is the dereference of a nil pointer.
unfoldable pub error : Heap → Option ℕ → Option Text
error h none = none
error h (some p) =
    some (codes "status: " ++ (decimal 10 (h.cells p).code ++ (codes " msg: " ++ (h.cells p).text)))
