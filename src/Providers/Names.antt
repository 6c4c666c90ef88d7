-- ===== src/Providers/Names.antt =====
-- What names volumes get (internal/storage/providers/common.go, `normalizeVolumeName`).
use Prim.Native.Char.{Char, code}
use compute_agent.Base.{
  ◌≡◌, ◌≢◌, inl, inr, String, true, false, ◌||◌, ◌==◌, is_blank, trim_space, arith, if◌then◌else◌,
  Bool-cases,
}
use compute_agent.Errors.{Result, ok, err}
use compute_agent.Providers.{
  System, is_kept, to_name_char, to_name_chars, trim_left_dashes, before_dashes, trim_right_dashes,
  name_or_error, normalize_volume_name,
}

-- No character is a slash.
abbrev pub HasNoSlash : String → Type 0
HasNoSlash String.[] = Unit
HasNoSlash (String.◌∷◌ c s) = (code c ≢ b'/') × HasNoSlash s

-- A name that is no error is not empty and leads to no other directory.
abbrev pub IsName : Result String → Type 0
IsName (err e) = Unit
IsName (ok name) = (is_blank name ≡ false) × HasNoSlash name

trim_left_dashes-HasNoSlash : (s : String) → HasNoSlash s → HasNoSlash (trim_left_dashes s)
unfolding trim_left_dashes
trim_left_dashes-HasNoSlash String.[] h = tt
trim_left_dashes-HasNoSlash (String.◌∷◌ c s) h = elim (Bool-cases (code c == b'-')) [
  | inl e ↦ rw e (trim_left_dashes-HasNoSlash s h.1)
  | inr e ↦ rw e h
]

before_dashes-HasNoSlash :
    (c : Char) (s : String) → (code c ≢ b'/') → HasNoSlash s → HasNoSlash (before_dashes c s)
before_dashes-HasNoSlash c String.[] g h = elim (Bool-cases (code c == b'-')) [
  | inl e ↦ rw e tt
  | inr e ↦ rw e (g, tt)
]
before_dashes-HasNoSlash c (String.◌∷◌ d s) g h = (g, h)

trim_right_dashes-HasNoSlash : (s : String) → HasNoSlash s → HasNoSlash (trim_right_dashes s)
unfolding trim_right_dashes
trim_right_dashes-HasNoSlash String.[] h = tt
trim_right_dashes-HasNoSlash (String.◌∷◌ c s) h =
    before_dashes-HasNoSlash c (trim_right_dashes s) h.0 (trim_right_dashes-HasNoSlash s h.1)

name_or_error-IsName :
    (sys : System) (name out : String) → HasNoSlash out → IsName (name_or_error sys name out)
name_or_error-IsName sys name out h = elim (Bool-cases (is_blank out)) [
  | inl e ↦ rw e tt
  | inr e ↦ rw e (e, h)
]

kept-ne : (c : Char) → code (if is_kept c then c else "-") ≢ b'/'
kept-ne c = elim (Bool-cases (is_kept c)) [
  | inl e ↦ rw e (λ h. ground arith)
  | inr e ↦ rw e (λ h. ground arith)
]

module _ (sys : System)
    (lowers : (c : Char)
      → (sys.is_letter c || sys.is_digit c) ≡ true
      → code (sys.to_lower c) ≢ b'/') where
  to_name_char-ne : (c : Char) → code (to_name_char sys c) ≢ b'/'
  to_name_char-ne c = elim (Bool-cases (sys.is_letter c || sys.is_digit c)) [
    | inl e ↦ rw e (lowers c e)
    | inr e ↦ rw e (kept-ne c)
  ]

  to_name_chars-HasNoSlash : (s : String) → HasNoSlash (to_name_chars sys s)
  unfolding to_name_chars
  to_name_chars-HasNoSlash String.[] = tt
  to_name_chars-HasNoSlash (String.◌∷◌ c s) = (to_name_char-ne c, to_name_chars-HasNoSlash s)

  -- Where lowering a letter or a digit makes no slash, the name that a volume gets is not empty and
  -- has no slash.
  pub normalize_volume_name-IsName : (name : String) → IsName (normalize_volume_name sys name)
  unfolding normalize_volume_name
  normalize_volume_name-IsName name = elim (Bool-cases (is_blank (trim_space name))) [
    | inl e ↦ rw e tt
    | inr e ↦ rw e (
        name_or_error-IsName sys name
          (trim_right_dashes (trim_left_dashes (to_name_chars sys (trim_space name))))
          (trim_right_dashes-HasNoSlash (trim_left_dashes (to_name_chars sys (trim_space name))) (
            trim_left_dashes-HasNoSlash (to_name_chars sys (trim_space name))
              (to_name_chars-HasNoSlash (trim_space name)))))
  ]
