-- ===== src/Http/Request.antt =====
-- The request line and the headers (code/http_min.go, `readHTTPLine` to `splitQuery`). The stream is the
-- list of the bytes that come; a slice of it is what was read.
pub mod Bounds
use back_channel.Prelude.{
  ℕ, zero, suc, ◌+◌, ◌-◌, Bool, true, false, ◌&&◌, ◌||◌, not, Option, none, some, List, [], ◌∷◌,
  ◌++◌, length, ltb, nat_eq, ◌==◌, list_eq, is_some, or_else, if◌then◌else◌,
}
use mathlib.Core.List.{reverse}
use back_channel.Prelude.Int.{ℤ, pos, negsuc}
use back_channel.Prelude.Dict.{Dict, lookup, insert}
use back_channel.Prelude.Text.{Text, str, to_lower, trim_space, is_space}
use back_channel.Prelude.Decimal.{parse_int64}
use back_channel.Auth.Password.{split}
use back_channel.Http.Escape.{unescape}

abbrev pub max_line : ℕ
max_line = 8192

abbrev pub max_headers : ℕ
max_headers = 32_768

-- The bytes up to the first line feed, and the bytes after it.
unfoldable pub cut_line : Text → Option (Text × Text)
cut_line [] = none
cut_line (c ∷ s) =
    let rest = cut_line s in
    if nat_eq c b'\n'
    then some (c ∷ [], s)
    else elim rest [ none ↦ none | some (l, r) ↦ some (c ∷ l, r) ]

abbrev within_limit : ℕ → Option (Text × Text) → Option (Text × Text)
within_limit limit none = none
within_limit limit (some (l, r)) = if ltb limit (length l) then none else some (l, r)

-- `readHTTPLine`: an error where the stream ends first, or the line is too long.
unfoldable pub read_line : ℕ → Text → Option (Text × Text)
unfolding cut_line
read_line limit s = within_limit limit (cut_line s)

is_line_end : ℕ → Bool
is_line_end c = nat_eq c b'\r' || nat_eq c b'\n'

drop_line_end : Text → Text
unfolding is_line_end
drop_line_end [] = []
drop_line_end (c ∷ s) = if is_line_end c then drop_line_end s else c ∷ s

-- `strings.TrimRight(s, "\r\n")`
unfoldable pub trim_line : Text → Text
unfolding drop_line_end
trim_line s = reverse (drop_line_end (reverse s))

-- `strings.Cut`, at a separator of one byte.
unfoldable pub cut : ℕ → Text → Option (Text × Text)
cut sep [] = none
cut sep (c ∷ s) =
    let rest = cut sep s in
    if nat_eq c sep then some ([], s) else elim rest [ none ↦ none | some (k, v) ↦ some (c ∷ k, v) ]

abbrev pub Headers : Type 0
Headers = Dict Text Text

abbrev is_blank : Text → Bool
is_blank [] = true
is_blank (c ∷ s) = false

-- A header is added to those before it; a second content length is an error.
add_header : Option (Text × Text) → Headers → Option Headers
add_header none headers = none
add_header (some (k, v)) headers =
    let key = to_lower (trim_space k) in
    if is_blank (trim_space k)
    then none
    else if (key == str "content-length") && is_some (lookup key headers)
    then none
    else some (insert key (trim_space v) headers)

-- What a line of the headers comes to: an error, the end, or more headers.
pub data Line : Type 0 where
  malformed finished : Line
  more : Headers → Line

header_of : Option Headers → Line
header_of none = Line.malformed
header_of (some headers) = Line.more headers

unfoldable pub header_line : Text → ℕ → Headers → Line
unfolding add_header header_of
header_line l total headers =
    if ltb max_headers total
    then Line.malformed
    else if is_blank (trim_line l)
    then Line.finished
    else header_of (add_header (cut b':' (trim_line l)) headers)

-- `readHTTPHeaders`: the headers and the rest of the stream. Every line has a byte, so that the length
-- of the stream is fuel enough; see `Bounds`.
unfoldable pub read_headers : ℕ → Text → ℕ → Headers → Option (Headers × Text)
unfolding header_line
read_headers zero s total headers = none
read_headers (suc fuel) s total headers = elim (read_line max_line s) [
  | none ↦ none
  | some (l, r) ↦ elim (header_line l (total + length l) headers) [
    | Line.malformed ↦ none
    | Line.finished ↦ some (headers, r)
    | Line.more headers' ↦ read_headers fuel r (total + length l) headers'
  ]
]

-- `strings.Fields`, on ASCII: the words between spaces; `word` is the word that is being read.
words_from : Text → Text → List Text
words_from word [] = if is_blank word then [] else reverse word ∷ []
words_from word (c ∷ s) =
    let next = words_from (if is_space c then [] else c ∷ word) s in
    if is_space c && not (is_blank word) then reverse word ∷ next else next

unfoldable pub fields : Text → List Text
unfolding words_from
fields s = words_from [] s

-- ---- the query ----

add_pair : Option (Text × Text) → Headers → Headers
add_pair none query = query
add_pair (some (k, v)) query = insert k (unescape v) query

add_pairs : List Text → Headers → Headers
unfolding add_pair
add_pairs [] query = query
add_pairs (kv ∷ rest) query = add_pairs rest (add_pair (cut b'=' kv) query)

abbrev path_of : Text → Option (Text × Text) → Text × Text
path_of target none = (target, [])
path_of target (some (path, query)) = (path, query)

-- `splitQuery`: keys are taken as they are, values and the path are decoded.
unfoldable pub split_query : Text → Text × Headers
unfolding add_pairs
split_query target =
    let (path, query) = path_of target (cut b'?' target) in
    (unescape path, add_pairs (split b'&' query) [])

-- ---- the request ----

pub record Request : Type 0 where
  pub method : Text
  pub path : Text
  pub query : Headers
  pub header : Headers
  pub size : ℕ
  pub body : Text

content_length : Option Text → Option ℕ
content_length none = some 0
content_length (some raw) = elim (parse_int64 raw) [
  | none ↦ none
  | some (pos n) ↦ some n
  | some (negsuc n) ↦ none
]

-- Only the encoding that changes nothing is spoken.
is_chunked : Option Text → Bool
is_chunked none = false
is_chunked (some []) = false
is_chunked (some (c ∷ te)) = not (to_lower (c ∷ te) == str "identity")

with_length : Option ℕ → Text → Text → Headers → Headers → Text → Option Request
unfolding is_chunked
with_length none method path query header rest = none
with_length (some n) method path query header rest =
    if is_chunked (lookup (str "transfer-encoding") header)
    then none
    else some (record {
      method = method;
      path = path;
      query = query;
      header = header;
      size = n;
      body = back_channel.Prelude.take n rest;
    })

with_headers : Option (Headers × Text) → Text → Text → Option Request
unfolding content_length with_length
with_headers none method target = none
with_headers (some (header, rest)) method target =
    let (path, query) = split_query target in
    with_length (content_length (lookup (str "content-length") header)) method path query header
      rest

with_words : List Text → Text → Option Request
unfolding with_headers
with_words (method ∷ target ∷ others) rest =
    with_headers (read_headers (length rest) rest 0 []) method target
with_words _ rest = none

with_line : Option (Text × Text) → Option Request
unfolding with_words
with_line none = none
with_line (some (line, rest)) = with_words (fields line) rest

-- `readRequest`: none for an error.
unfoldable pub read_request : Text → Option Request
unfolding with_line
read_request s = with_line (read_line max_line s)
