-- ===== src/Gateway/Http.antt =====
-- What the gateway reads of an HTTP request, and the body it passes on.
use toska_mesh.Prelude.{
  ℕ, String, Bool, false, none, some, List, [], ◌∷◌, ltb, if◌then◌else◌, length, take,
}
use toska_mesh.Prelude.Dict.{Dict, lookup}

-- `http.Header`, under the canonical names
abbrev pub Header : Type 0
Header = Dict (List String)

-- `h.Get(name)`, for a canonical name
unfoldable pub header_get : Header → String → String
header_get h name = elim (lookup name h) [
  | none ↦ ""
  | some values ↦ elim values [ [] ↦ "" | v ∷ rest ↦ v ]
]

-- What can still be read of a request's body: nothing, and then the end of the file; these bytes, and
-- then the end of the file or an error; or only an error, as it was closed.
pub data RequestBody : Type 0 where
  empty_body : RequestBody
  open_body : (content : List ℕ) → (ends_well : Bool) → RequestBody
  closed_body : RequestBody

-- `Body.Close()`; the empty body is `http.NoBody`, which is as before
unfoldable pub close_body : RequestBody → RequestBody
close_body empty_body = empty_body
close_body (open_body content ends_well) = closed_body
close_body closed_body = closed_body

-- `http.MaxBytesReader(w, body, n)`: a read past n bytes is an error.
unfoldable pub max_bytes_reader : ℕ → RequestBody → RequestBody
max_bytes_reader n empty_body = empty_body
max_bytes_reader n (open_body content ends_well) =
    if ltb n (length content) then open_body (take n content) false else open_body content ends_well
max_bytes_reader n closed_body = closed_body

pub record Request : Type 0 where
  pub method : String
  pub path : String
  pub raw_query : String
  pub header : Header
  pub remote_addr : String
  pub body : RequestBody
