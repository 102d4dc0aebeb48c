-- ===== src/Multiplexer/Alpn.antt =====
-- multiplexer/alpn: the application protocols, a byte each, and their names both ways. A name is a
-- list of bytes.
use t.Prelude.{ℕ, List, [], ◌∷◌, same, if◌then◌else◌}

abbrev pub unknown : ℕ
unknown = 0

abbrev pub multiplexer : ℕ
multiplexer = 1

abbrev pub http : ℕ
http = 2

abbrev pub raw : ℕ
raw = 3

-- "", "multiplexer", "http/1.1" and "raw", the values of `Map`.
abbrev pub unknown_name : List ℕ
unknown_name = []

abbrev pub multiplexer_name : List ℕ
multiplexer_name = 109 ∷ 117 ∷ 108 ∷ 116 ∷ 105 ∷ 112 ∷ 108 ∷ 101 ∷ 120 ∷ 101 ∷ 114 ∷ []

abbrev pub http_name : List ℕ
http_name = 104 ∷ 116 ∷ 116 ∷ 112 ∷ 47 ∷ 49 ∷ 46 ∷ 49 ∷ []

abbrev pub raw_name : List ℕ
raw_name = 114 ∷ 97 ∷ 119 ∷ []

-- `ReverseMap[name]`, which is the zero value for a name that is not in it.
unfoldable pub reverse_map : List ℕ → ℕ
reverse_map name =
    if same name multiplexer_name
    then multiplexer
    else if same name http_name
    then http
    else if same name raw_name
    then raw
    else unknown
