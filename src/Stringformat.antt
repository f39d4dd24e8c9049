-- ===== src/Stringformat.antt =====
-- stringformat/stringformat.go and conversion/conversion.go: fixed-length texts and sizes.
-- A text is a list of ASCII codes, and a length is not negative. A uint64 is a number below 2 ^ 64.
pub mod Widths
pub mod Sizes
mod Tests
use common_host_libs.Prelude.{
  ℕ, zero, suc, ◌+◌, ◌-◌, ◌*◌, ◌/◌, ◌%◌, ◌^◌, Bool, true, false, not, ◌&&◌, ◌||◌, List, [], ◌∷◌,
  ◌++◌, length, take, leb, ◌==◌, if◌then◌else◌,
}
use common_host_libs.Prelude.Text.{Text, codes, decimal, is_nil, text_eq}

-- `invalid_align` stands for every other value of AlignmentType.
pub data AlignmentType : Type 0 where
  left_align : AlignmentType
  right_align : AlignmentType
  center_align : AlignmentType
  invalid_align : AlignmentType

-- A value by its type.
pub data Value : Type 0 where
  of_uint64 : ℕ → Value
  of_string : Text → Value
  of_bool : Bool → Value
  of_other : Value

abbrev pub blanks : ℕ → Text
blanks zero = []
blanks (suc n) = b' ' ∷ blanks n

-- `%-Ns` and `%Ns`
abbrev pub pad_right : ℕ → Text → Text
pad_right width s = s ++ blanks (width - length s)

abbrev pub pad_left : ℕ → Text → Text
pad_left width s = blanks (width - length s) ++ s

-- A width that stands in a format: package fmt gives up on a digit behind a number above 10 ^ 6, and
-- writes what is left of the format and the argument as errors.
abbrev pub is_width : ℕ → Bool
is_width width = leb (width / 10) 1000000

abbrev pub sprintf : ℕ → Text → Text → Text
sprintf width str padded =
    if is_width width
    then padded
    else codes "%!(NOVERB)" ++ (codes "%!(EXTRA string=" ++ (str ++ codes ")"))

-- A width that is an argument, which is left out with an error where it is above 10 ^ 6.
abbrev pub starred : ℕ → Text → Text → Text
starred width str padded = if leb width 1000000 then padded else codes "%!(BADWIDTH)" ++ str

abbrev pub inner : ℕ → Text → Text
inner half str = starred half str (pad_left half str)

pub aligned : ℕ → Text → AlignmentType → Text
aligned width str left_align = sprintf width str (pad_right width (take width str))
aligned width str right_align = sprintf width str (pad_left width (take width str))
aligned width str center_align =
    starred width (inner ((width + length str) / 2) str)
      (pad_right width (inner ((width + length str) / 2) str))
aligned width str invalid_align = []

-- FixedLengthString; a uint64 has at most 20 digits.
pub fixed_length_string : ℕ → Value → AlignmentType → Text
fixed_length_string width (of_uint64 n) alignment = aligned width (decimal 20 n) alignment
fixed_length_string width (of_string s) alignment = aligned width s alignment
fixed_length_string width (of_bool b) alignment =
    aligned width (if b then codes "true" else codes "false") alignment
fixed_length_string width of_other alignment = []

-- CheckIfKeysNonEmpty
abbrev pub check_if_keys_non_empty : Text → Text → Bool
check_if_keys_non_empty s1 s2 = not (is_nil s1) && not (is_nil s2)

-- What StringLookup searches, by its type.
pub data Input : Type 0 where
  in_list : List Text → Input
  in_string : Text → Input
  in_other : Input

abbrev pub is_listed : List Text → Text → Bool
is_listed [] value = false
is_listed (val ∷ rest) value = text_eq value val || is_listed rest value

abbrev pub string_lookup : Input → Text → Bool
string_lookup (in_list values) value = is_listed values value
string_lookup (in_string val) value = text_eq value val
string_lookup in_other value = false

-- StringsLookup
abbrev pub strings_lookup : List Text → List Text → Bool
strings_lookup references [] = true
strings_lookup references (item ∷ items) =
    string_lookup (in_list references) item && strings_lookup references items

-- ConvertGiBToMiB, whose product wraps around.
pub convert_gib_to_mib : ℕ → ℕ
convert_gib_to_mib value = (value * 1024) % 2 ^ 64

pub convert_mib_to_gib : ℕ → ℕ
convert_mib_to_gib value = if not (value == 0) then value / 1024 else value

pub convert_bytes_to_mib : ℕ → ℕ
convert_bytes_to_mib value = if not (value == 0) then value / 1048576 else value

pub convert_bytes_to_gib : ℕ → ℕ
convert_bytes_to_gib value = if not (value == 0) then value / 1073741824 else value
