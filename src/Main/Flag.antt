-- ===== src/Main/Flag.antt =====
-- src/main.rs: the words that the command line knows.
use vitruvius.Base.{◌∷◌, [], Text}

-- "--http-port"
abbrev pub http_port : Text
http_port = 45 ∷ 45 ∷ 104 ∷ 116 ∷ 116 ∷ 112 ∷ 45 ∷ 112 ∷ 111 ∷ 114 ∷ 116 ∷ []

-- "--ws-port"
abbrev pub ws_port : Text
ws_port = 45 ∷ 45 ∷ 119 ∷ 115 ∷ 45 ∷ 112 ∷ 111 ∷ 114 ∷ 116 ∷ []

-- "--theme"
abbrev pub theme : Text
theme = 45 ∷ 45 ∷ 116 ∷ 104 ∷ 101 ∷ 109 ∷ 101 ∷ []

-- "--key-path"
abbrev pub key_path : Text
key_path = 45 ∷ 45 ∷ 107 ∷ 101 ∷ 121 ∷ 45 ∷ 112 ∷ 97 ∷ 116 ∷ 104 ∷ []

-- "--generate-key"
abbrev pub generate : Text
generate = 45 ∷ 45 ∷ 103 ∷ 101 ∷ 110 ∷ 101 ∷ 114 ∷ 97 ∷ 116 ∷ 101 ∷ 45 ∷ 107 ∷ 101 ∷ 121 ∷ []

-- "--vault"
abbrev pub vault : Text
vault = 45 ∷ 45 ∷ 118 ∷ 97 ∷ 117 ∷ 108 ∷ 116 ∷ []

-- "--no-vault"
abbrev pub no_vault : Text
no_vault = 45 ∷ 45 ∷ 110 ∷ 111 ∷ 45 ∷ 118 ∷ 97 ∷ 117 ∷ 108 ∷ 116 ∷ []

-- "--no-encrypted-protocol"
abbrev pub no_encrypted_protocol : Text
no_encrypted_protocol =
    45 ∷ 45 ∷ 110 ∷ 111 ∷ 45 ∷ 101 ∷ 110 ∷ 99 ∷ 114 ∷ 121 ∷ 112 ∷ 116 ∷ 101 ∷ 100 ∷ 45 ∷ 112 ∷ 114
    ∷ 111 ∷ 116 ∷ 111 ∷ 99 ∷ 111 ∷ 108 ∷ []

-- "--vault-key"
abbrev pub vault_key : Text
vault_key = 45 ∷ 45 ∷ 118 ∷ 97 ∷ 117 ∷ 108 ∷ 116 ∷ 45 ∷ 107 ∷ 101 ∷ 121 ∷ []

-- "import"
abbrev pub import_word : Text
import_word = 105 ∷ 109 ∷ 112 ∷ 111 ∷ 114 ∷ 116 ∷ []

-- "export"
abbrev pub export_word : Text
export_word = 101 ∷ 120 ∷ 112 ∷ 111 ∷ 114 ∷ 116 ∷ []

-- "--help"
abbrev pub help : Text
help = 45 ∷ 45 ∷ 104 ∷ 101 ∷ 108 ∷ 112 ∷ []

-- "-h"
abbrev pub h : Text
h = 45 ∷ 104 ∷ []
