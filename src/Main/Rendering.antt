-- ===== src/Main/Rendering.antt =====
-- src/main.rs: the command line that gives some settings.
use vitruvius.Base.{
  ◌^◌, ◌<◌, ◌≡◌, refl, sym, ap, ◌∙◌, Bool, true, false, not, Option, none, some, List, [], ◌∷◌,
  ◌++◌, nat_eq, list_eq, list_beq, Text,
}
use vitruvius.Storage.Reassembly.{decimal}
use vitruvius.Main.Args.{
  Settings, default_settings, run, parse_u16, or_default, switch, valued, paired, meaning,
  parse_args,
}
use vitruvius.Main.Flag
use vitruvius.Base.{list_beq}
use vitruvius.Main.Ports.{parse_u16-decimal}

abbrev option_args : Text → Option Text → List Text
option_args flag none = []
option_args flag (some v) = flag ∷ v ∷ []

abbrev pair_args : Text → Option (Text × Text) → List Text
pair_args word none = []
pair_args word (some (src, dst)) = word ∷ src ∷ dst ∷ []

abbrev switch_args : Text → Bool → List Text
switch_args flag false = []
switch_args flag true = flag ∷ []

-- Arguments that ask for the settings.
abbrev pub render : Settings → List Text
render s =
    Flag.http_port
    ∷ decimal s.http_port
    ∷ Flag.ws_port
    ∷ decimal s.ws_port
    ∷ Flag.theme
    ∷ s.theme
    ∷ (option_args Flag.key_path s.key_path
        ++ (option_args Flag.generate s.generate_key_path
            ++ (option_args Flag.vault_key s.vault_key_path
                ++ (switch_args Flag.vault s.vault_mode
                    ++ (switch_args Flag.no_encrypted_protocol (not s.encrypted_protocol)
                        ++ (pair_args Flag.import_word s.import_args
                            ++ (pair_args Flag.export_word s.export_args ++ [])))))))

module _ (s : Settings) (a : Text) where
  switch_step :
      (f : Settings → Settings) (rest : List Text)
      → meaning a ≡ switch f
      → parse_args s (a ∷ rest) ≡ parse_args (f s) rest
  unfolding parse_args
  switch_step f [] e = rw (e, parse_args)
  switch_step f (b ∷ []) e = rw (e, parse_args)
  switch_step f (b ∷ c ∷ rest) e = rw (e, parse_args)

  valued_step :
      (f : Text → Settings → Settings) (v : Text) (rest : List Text)
      → meaning a ≡ valued f
      → parse_args s (a ∷ v ∷ rest) ≡ parse_args (f v s) rest
  unfolding parse_args
  valued_step f v [] e = rw (e, parse_args)
  valued_step f v (c ∷ rest) e = rw (e, parse_args)

  paired_step :
      (f : Text → Text → Settings → Settings) (src dst : Text) (rest : List Text)
      → meaning a ≡ paired f
      → parse_args s (a ∷ src ∷ dst ∷ rest) ≡ parse_args (f src dst s) rest
  unfolding parse_args
  paired_step f src dst rest e = rw (e, parse_args)

-- An option that is left out keeps what the settings have.
option_step :
    (set : Option Text → Settings → Settings) (flag : Text) (o : Option Text) (s : Settings)
    (rest : List Text)
    → meaning flag ≡ valued (λ v. set (some v))
    → set none s ≡ s
    → parse_args s (option_args flag o ++ rest) ≡ parse_args (set o s) rest
option_step set flag none s rest means unset = ap (λ r. parse_args r rest) (sym unset)
option_step set flag (some v) s rest means unset =
    valued_step s flag (λ w. set (some w)) v rest means

pair_step :
    (set : Option (Text × Text) → Settings → Settings) (word : Text) (o : Option (Text × Text))
    (s : Settings) (rest : List Text)
    → meaning word ≡ paired (λ src dst. set (some (src, dst)))
    → set none s ≡ s
    → parse_args s (pair_args word o ++ rest) ≡ parse_args (set o s) rest
pair_step set word none s rest means unset = ap (λ r. parse_args r rest) (sym unset)
pair_step set word (some (src, dst)) s rest means unset =
    paired_step s word (λ x y. set (some (x, y))) src dst rest means

flag_step :
    (set : Bool → Settings → Settings) (word : Text) (b : Bool) (s : Settings) (rest : List Text)
    → meaning word ≡ switch (set true)
    → set false s ≡ s
    → parse_args s (switch_args word b ++ rest) ≡ parse_args (set b s) rest
flag_step set word false s rest means unset = ap (λ r. parse_args r rest) (sym unset)
flag_step set word true s rest means unset = switch_step s word (set true) rest means

not-not : (b : Bool) → not (not b) ≡ b
not-not true = refl
not-not false = refl

-- If both ports are below 2^16, then there is a command line that gives the settings: the arguments
-- that `render` lists are read as exactly these settings.
pub parse_args-render :
    (s : Settings)
    → s.http_port < 2 ^ 16
    → s.ws_port < 2 ^ 16
    → parse_args default_settings (render s) ≡ run s
unfolding meaning parse_args list_beq
parse_args-render s http ws =
    let d0 = default_settings in
    let d1 = record d0 { http_port = s.http_port } in
    let d2 = record d1 { ws_port = s.ws_port } in
    let d3 = record d2 { theme = s.theme } in
    let d4 = record d3 { key_path = s.key_path } in
    let d5 = record d4 { generate_key_path = s.generate_key_path } in
    let d6 = record d5 { vault_key_path = s.vault_key_path } in
    let d7 = record d6 { vault_mode = s.vault_mode } in
    let d8 = record d7 { encrypted_protocol = not (not s.encrypted_protocol) } in
    let d9 = record d8 { import_args = s.import_args } in
    let r9 = pair_args Flag.export_word s.export_args ++ [] in
    let r8 = pair_args Flag.import_word s.import_args ++ r9 in
    let r7 = switch_args Flag.no_encrypted_protocol (not s.encrypted_protocol) ++ r8 in
    let r6 = switch_args Flag.vault s.vault_mode ++ r7 in
    let r5 = option_args Flag.vault_key s.vault_key_path ++ r6 in
    let r4 = option_args Flag.generate s.generate_key_path ++ r5 in
    let r3 = option_args Flag.key_path s.key_path ++ r4 in
    valued_step d0 Flag.http_port (λ v s. record s { http_port = or_default (parse_u16 v) 9000 })
      (decimal s.http_port) (Flag.ws_port ∷ decimal s.ws_port ∷ Flag.theme ∷ s.theme ∷ r3) refl
    ∙ ap
        (λ p.
          parse_args (record d0 { http_port = or_default p 9000 })
            (Flag.ws_port ∷ decimal s.ws_port ∷ Flag.theme ∷ s.theme ∷ r3))
        (parse_u16-decimal s.http_port http)
    ∙ valued_step d1 Flag.ws_port (λ v s. record s { ws_port = or_default (parse_u16 v) 9001 })
        (decimal s.ws_port) (Flag.theme ∷ s.theme ∷ r3) refl
    ∙ ap (λ p. parse_args (record d1 { ws_port = or_default p 9001 }) (Flag.theme ∷ s.theme ∷ r3))
        (parse_u16-decimal s.ws_port ws)
    ∙ valued_step d2 Flag.theme (λ v s. record s { theme = v }) s.theme r3 refl
    ∙ option_step (λ o s. record s { key_path = o }) Flag.key_path s.key_path d3 r4 refl refl
    ∙ option_step (λ o s. record s { generate_key_path = o }) Flag.generate s.generate_key_path d4
        r5 refl refl
    ∙ option_step (λ o s. record s { vault_key_path = o }) Flag.vault_key s.vault_key_path d5 r6
        refl refl
    ∙ flag_step (λ b s. record s { vault_mode = b }) Flag.vault s.vault_mode d6 r7 refl refl
    ∙ flag_step (λ b s. record s { encrypted_protocol = not b }) Flag.no_encrypted_protocol
        (not s.encrypted_protocol) d7 r8 refl refl
    ∙ pair_step (λ o s. record s { import_args = o }) Flag.import_word s.import_args d8 r9 refl refl
    ∙ pair_step (λ o s. record s { export_args = o }) Flag.export_word s.export_args d9 [] refl refl
    ∙ ap (λ b. run (record s { encrypted_protocol = b })) (not-not s.encrypted_protocol)
