-- ===== src/Store/Codec.antt =====
-- A codec for maps of texts, which shows that what the store relies on can be met: each character
-- of a text stands behind a colon, and each text behind a comma and a full stop.
use kotakpasir.Base.{
  ◌≡◌, ◌≢◌, refl, ap, Option, none, some, List, [], ◌∷◌, String, ◌∙◌, if◌then◌else◌, ◌==◌, nat_eq,
}
use kotakpasir.Base.Dict.{Dict}
use Prim.Native.Char.{code}
use kotakpasir.Store.{Json, IsJson}

quoted : String → String → String
quoted String.[] rest = rest
quoted (String.◌∷◌ c s) rest = String.◌∷◌ ":" (String.◌∷◌ c (quoted s rest))

token : String → String → String
token s rest = String.◌∷◌ "," (String.◌∷◌ "." (quoted s rest))

entries : Dict String → String
entries [] = String.[]
entries ((k, v) ∷ m) = token k (token v (entries m))

-- The text that is cut off in front, and the texts behind it.
tokens : String → String × List String
tokens String.[] = (String.[], [])
tokens (String.◌∷◌ c String.[]) = (String.[], [])
tokens (String.◌∷◌ c (String.◌∷◌ d s)) =
    let (t, ts) = tokens s in if code c == 58 then (String.◌∷◌ d t, ts) else (String.[], t ∷ ts)

paired : List String → Dict String
paired [] = []
paired (k ∷ []) = []
paired (k ∷ v ∷ ts) = (k, v) ∷ paired ts

tokens-quoted :
    (s rest : String) → (tokens rest).0 ≡ String.[] → tokens (quoted s rest) ≡ (s, (tokens rest).1)
unfolding tokens quoted nat_eq
tokens-quoted String.[] rest h = ap (λ t. (t, (tokens rest).1)) h
tokens-quoted (String.◌∷◌ c s) rest h = ap (λ r. (String.◌∷◌ c r.0, r.1)) (tokens-quoted s rest h)

tokens-token :
    (s rest : String)
    → (tokens rest).0 ≡ String.[]
    → tokens (token s rest) ≡ (String.[], s ∷ (tokens rest).1)
unfolding tokens token nat_eq
tokens-token s rest h = ap (λ r. (String.[], r.0 ∷ r.1)) (tokens-quoted s rest h)

front-entries : (m : Dict String) → (tokens (entries m)).0 ≡ String.[]
unfolding entries tokens token nat_eq
front-entries [] = refl
front-entries ((k, v) ∷ m) = refl

paired-entries : (m : Dict String) → paired (tokens (entries m)).1 ≡ m
unfolding entries paired tokens
paired-entries [] = refl
paired-entries ((k, v) ∷ m) =
    let inner = tokens-token v (entries m) (front-entries m) in
    ap (λ r. paired r.1) (tokens-token k (token v (entries m)) (ap (λ r. r.0) inner))
    ∙ ap (λ r. paired (k ∷ r.1)) inner
    ∙ ap (λ r. (k, v) ∷ r) (paired-entries m)

pub write_map : Dict String → String
write_map m = String.◌∷◌ "{" (entries m)

pub read_map : String → Option (Dict String)
read_map String.[] = none
read_map (String.◌∷◌ c s) = some (paired (tokens s).1)

abbrev pub codec : Json
codec = record { marshal = write_map; unmarshal = read_map }

codec_reads : (m : Dict String) → codec.unmarshal (codec.marshal m) ≡ some m
unfolding write_map read_map
codec_reads m = ap some (paired-entries m)

codec_nonempty : (m : Dict String) → codec.marshal m ≢ ""
unfolding write_map
codec_nonempty m h = cc

pub codec-IsJson : IsJson codec
codec-IsJson = record { unmarshal-marshal = codec_reads; nonempty = codec_nonempty }
