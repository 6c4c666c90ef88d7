-- ===== src/Providers.antt =====
-- internal/storage/providers/common.go: what the storage providers share. The directories that they
-- make and remove are calls, the newest first; Go's `unicode` and `filepath` are a `System`.
pub mod Names
pub mod Local
pub mod Remote
pub mod Manager
use Prim.Native.Char.{Char, code}
use compute_agent.Base.{
  ℕ, String, ◌<>◌, Bool, true, false, ◌||◌, Option, none, some, List, [], ◌∷◌, ◌==◌, str_eq, codes,
  has_prefix, is_blank, trim_space, lower, if◌then◌else◌,
}
use compute_agent.Errors.{Err, plain, Result, ok, err}
use compute_agent.Models.{Time}

pub data DirCall : Type 0 where
  makes removes : String → DirCall

pub record System : Type 0 where
  pub is_letter : Char → Bool
  pub is_digit : Char → Bool
  pub to_lower : Char → Char
  -- `%q`
  pub quote : String → String
  pub clean : String → String
  pub join : String → String → String
  pub rel : String → String → Result String
  -- `path.Join` after a slash
  pub join_root : String → String → String
  pub dir_error : List DirCall → Option String
  pub now : Time

abbrev pub S {ℓ} : Type ℓ → Type ℓ
S A = List DirCall → A × List DirCall

abbrev pub pure {ℓ} : {A : Type ℓ} → A → S A
pure a cs = (a, cs)

infixl 5 ◌>>=◌
abbrev pub ◌>>=◌ {ℓ κ} : {A : Type ℓ} {B : Type κ} → S A → (A → S B) → S B
◌>>=◌ f g cs = let (a, cs') = f cs in g a cs'

abbrev pub fail {ℓ} : {A : Type ℓ} → String → Result A
fail message = err (plain message)

abbrev pub is_kept : Char → Bool
is_kept c = code c == b'-' || (code c == b'_' || code c == b'.')

module _ (sys : System) where
  -- `os.MkdirAll` and `os.RemoveAll`
  unfoldable pub act : DirCall → S (Option String)
  act c cs = (sys.dir_error (c ∷ cs), c ∷ cs)

  abbrev pub to_name_char : Char → Char
  to_name_char c =
      if sys.is_letter c || sys.is_digit c then sys.to_lower c else if is_kept c then c else "-"

  unfoldable pub to_name_chars : String → String
  to_name_chars String.[] = ""
  to_name_chars (String.◌∷◌ c s) = String.◌∷◌ (to_name_char c) (to_name_chars s)

unfoldable pub trim_left_dashes : String → String
trim_left_dashes String.[] = ""
trim_left_dashes (String.◌∷◌ c s) =
    let rest = trim_left_dashes s in if code c == b'-' then rest else String.◌∷◌ c s

abbrev pub before_dashes : Char → String → String
before_dashes c String.[] = if code c == b'-' then "" else String.◌∷◌ c ""
before_dashes c (String.◌∷◌ d s) = String.◌∷◌ c (String.◌∷◌ d s)

unfoldable pub trim_right_dashes : String → String
trim_right_dashes String.[] = ""
trim_right_dashes (String.◌∷◌ c s) = before_dashes c (trim_right_dashes s)

-- `strings.ReplaceAll` of one character by another
unfoldable pub replace_char : ℕ → Char → String → String
replace_char old new String.[] = ""
replace_char old new (String.◌∷◌ c s) =
    let rest = replace_char old new s in
    if code c == old then String.◌∷◌ new rest else String.◌∷◌ c rest

-- `volumeID`
abbrev pub volume_id : String → String → String
volume_id driver name = lower (trim_space driver) <> ":" <> trim_space name

abbrev pub or_default : String → String → String
or_default default s = if is_blank s then default else s

module _ (sys : System) where
  abbrev pub name_or_error : String → String → Result String
  name_or_error name out =
      if is_blank out
      then fail ("managed volume name " <> sys.quote name <> " is invalid")
      else ok out

  -- `normalizeVolumeName`
  unfoldable pub normalize_volume_name : String → Result String
  unfolding to_name_chars trim_left_dashes trim_right_dashes
  normalize_volume_name name =
      let trimmed = trim_space name in
      if is_blank trimmed
      then fail "managed volume name is required"
      else name_or_error name (trim_right_dashes (trim_left_dashes (to_name_chars sys trimmed)))

  -- Whether a relative path leaves its base.
  abbrev pub escapes : String → Bool
  escapes rel = has_prefix (codes rel) (codes "..")

  abbrev inside : String → Result String → Result String
  inside path (err e) = err e
  inside path (ok rel) =
      if escapes rel
      then fail ("resolved path " <> sys.quote path <> " escapes base path")
      else ok path

  -- `safeJoin`
  unfoldable pub safe_join : String → String → Result String
  safe_join base sub =
      if is_blank (trim_space base)
      then fail "base path is required"
      else (let root = sys.clean base in
          let path = sys.clean (sys.join root sub) in
          if str_eq path root then ok path else inside path (sys.rel root path))
