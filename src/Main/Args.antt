-- ===== src/Main/Args.antt =====
-- src/main.rs: the reading of the command line.
use vitruvius.Base.{
  ℕ, ◌+◌, ◌-◌, ◌*◌, ◌^◌, Bool, true, false, ◌&&◌, ◌||◌, Option, none, some, List, [], ◌∷◌, ltb, leb,
  if◌then◌else◌, is_empty, ◌==◌, nat_eq, list_eq, Text,
}
use vitruvius.Main.Flag

pub record Settings : Type 0 where
  pub http_port : ℕ
  pub ws_port : ℕ
  pub theme : Text
  pub key_path : Option Text
  pub vault_key_path : Option Text
  pub generate_key_path : Option Text
  pub vault_mode : Bool
  pub encrypted_protocol : Bool
  pub import_args : Option (Text × Text)
  pub export_args : Option (Text × Text)

abbrev pub default_settings : Settings
default_settings = record {
  http_port = 9000;
  ws_port = 9001;
  theme = [];
  key_path = none;
  vault_key_path = none;
  generate_key_path = none;
  vault_mode = false;
  encrypted_protocol = true;
  import_args = none;
  export_args = none;
}

-- The settings to run with, or an early exit: with status 2, or after `print_help`.
pub data Parsed : Type 0 where
  run : Settings → Parsed
  usage_error : Parsed
  help_shown : Parsed

-- The value of digits, `none` if there is another character.
unfoldable pub digits_value : ℕ → Text → Option ℕ
digits_value acc [] = some acc
digits_value acc (c ∷ s) =
    let rest = digits_value (acc * 10 + (c - 48)) s in if leb 48 c && ltb c 58 then rest else none

abbrev pub below_2_16 : Option ℕ → Option ℕ
below_2_16 none = none
below_2_16 (some n) = if ltb n (2 ^ 16) then some n else none

-- `v.parse::<u16>()`: an optional plus sign and digits, at least one.
unfoldable pub parse_u16 : Text → Option ℕ
parse_u16 [] = none
parse_u16 (c ∷ s) =
    if c == 43
    then (if is_empty s then none else below_2_16 (digits_value 0 s))
    else below_2_16 (digits_value 0 (c ∷ s))

-- `unwrap_or`
abbrev pub or_default : Option ℕ → ℕ → ℕ
or_default none d = d
or_default (some n) d = n

-- What an argument means, and how many of the following ones it takes.
pub data Argument : Type 0 where
  switch : (Settings → Settings) → Argument
  valued : (Text → Settings → Settings) → Argument
  paired : (Text → Text → Settings → Settings) → Argument
  help : Argument

unfoldable pub meaning : Text → Argument
meaning arg =
    if arg == Flag.http_port
    then valued (λ v s. record s { http_port = or_default (parse_u16 v) 9000 })
    else if arg == Flag.ws_port
    then valued (λ v s. record s { ws_port = or_default (parse_u16 v) 9001 })
    else if arg == Flag.theme
    then valued (λ v s. record s { theme = v })
    else if arg == Flag.key_path
    then valued (λ v s. record s { key_path = some v })
    else if arg == Flag.generate
    then valued (λ v s. record s { generate_key_path = some v })
    else if arg == Flag.vault
    then switch (λ s. record s { vault_mode = true })
    else if arg == Flag.no_vault
    then switch (λ s. record s { vault_mode = false })
    else if arg == Flag.no_encrypted_protocol
    then switch (λ s. record s { encrypted_protocol = false })
    else if arg == Flag.vault_key
    then valued (λ v s. record s { vault_key_path = some v })
    else if arg == Flag.import_word
    then paired (λ src dst s. record s { import_args = some (src, dst) })
    else if arg == Flag.export_word
    then paired (λ src dst s. record s { export_args = some (src, dst) })
    else if arg == Flag.help || arg == Flag.h
    then help
    else switch (λ s. s)

-- The loop over the arguments after the program's name. An option without its value is the last
-- argument and changes nothing.
unfoldable pub parse_args : Settings → List Text → Parsed
parse_args s [] = run s
parse_args s (a ∷ []) = elim (meaning a) [
  | switch f ↦ run (f s)
  | valued f ↦ run s
  | paired f ↦ usage_error
  | help ↦ help_shown
]
parse_args s (a ∷ b ∷ []) = elim (meaning a) [
  | switch f ↦ parse_args (f s) (b ∷ [])
  | valued f ↦ run (f b s)
  | paired f ↦ usage_error
  | help ↦ help_shown
]
parse_args s (a ∷ b ∷ c ∷ rest) = elim (meaning a) [
  | switch f ↦ parse_args (f s) (b ∷ c ∷ rest)
  | valued f ↦ parse_args (f b s) (c ∷ rest)
  | paired f ↦ parse_args (f b c s) rest
  | help ↦ help_shown
]
