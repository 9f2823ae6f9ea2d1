-- ===== src/Telemetry/HttpServer/Message.antt =====
-- src/telemetry/http_server.cpp: how a client reads a response.
use minerby.Base.{
  ℕ, zero, suc, ◌==◌, Bytes, List, [], ◌∷◌, ◌++◌, codes, length, All, Lacks, has-Lacks, All-append,
  ◌&&◌, Option, none, some, ◌≡◌, refl, ap, ◌∙◌, if◌then◌else◌,
}
use minerby.Util.Decimal.{to_string, to_string-Lacks, number_from, number_from-to_string}
use minerby.Telemetry.HttpServer.{http_response}

-- The text up to the first line end, and what follows.
abbrev pub longer : ℕ → Option (Bytes × Bytes) → Option (Bytes × Bytes)
longer c none = none
longer c (some (line, rest)) = some (c ∷ line, rest)

abbrev pub next_line : Bytes → Option (Bytes × Bytes)
next_line [] = none
next_line (c ∷ []) = none
next_line (c ∷ d ∷ s) =
    if (c == b'\r') && (d == b'\n') then some ([], s) else longer c (next_line (d ∷ s))

-- The lines before the empty line, at most `n` with it, and the body.
abbrev pub with_line : Bytes → Option (List Bytes × Bytes) → Option (List Bytes × Bytes)
with_line line none = none
with_line line (some (lines, body)) = some (line ∷ lines, body)

abbrev pub read_head : ℕ → Bytes → Option (List Bytes × Bytes)
read_head zero s = none
read_head (suc n) s = elim (next_line s) [
  | none ↦ none
  | some found ↦ elim found.0 [
    | [] ↦ some ([], found.1)
    | c ∷ line ↦ with_line (c ∷ line) (read_head n found.1)
  ]
]

-- The value of the first field that is named `Content-Length: `.
abbrev pub behind : Bytes → Bytes → Option Bytes
behind [] s = some s
behind (p ∷ prefix) [] = none
behind (p ∷ prefix) (c ∷ s) = if p == c then behind prefix s else none

abbrev pub content_length : List Bytes → Option ℕ
content_length [] = none
content_length (line ∷ lines) = elim (behind (codes "Content-Length: ") line) [
  | none ↦ content_length lines
  | some value ↦ some (number_from 0 value)
]

abbrev pub NoReturn : Bytes → Type 0
NoReturn = Lacks b'\r'

next_line-line :
    (line rest : Bytes)
    → NoReturn line
    → next_line (line ++ b'\r' ∷ b'\n' ∷ rest) ≡ some (line, rest)
next_line-line [] rest h = refl
next_line-line (c ∷ []) rest h = rw h.0 refl
next_line-line (c ∷ d ∷ line) rest h = rw (h.0, next_line-line (d ∷ line) rest h.1) refl

-- A line that is not empty.
abbrev IsLine : Bytes → Type 0
IsLine [] = ⊥
IsLine (c ∷ line) = NoReturn (c ∷ line)

abbrev laid_out : List Bytes → Bytes → Bytes
laid_out [] body = b'\r' ∷ b'\n' ∷ body
laid_out (line ∷ lines) body = line ++ b'\r' ∷ b'\n' ∷ laid_out lines body

abbrev one_each : ℕ → List Bytes → ℕ
one_each n [] = suc n
one_each n (line ∷ lines) = suc (one_each n lines)

read_head-laid_out :
    (n : ℕ) (lines : List Bytes) (body : Bytes)
    → All IsLine lines
    → read_head (one_each n lines) (laid_out lines body) ≡ some (lines, body)
read_head-laid_out n [] body h = refl
read_head-laid_out n ([] ∷ lines) body h = absurd h.0
read_head-laid_out n ((c ∷ line) ∷ lines) body h =
    rw (next_line-line (c ∷ line) (laid_out lines body) h.0, read_head-laid_out n lines body h.1)
      refl

-- The four lines of the head.
abbrev pub status_line : ℕ → Bytes → Bytes
status_line code status = codes "HTTP/1.1 " ++ (to_string code ++ (codes " " ++ status))

abbrev pub head_lines : ℕ → Bytes → Bytes → ℕ → List Bytes
head_lines code status content_type size =
    status_line code status
    ∷ (codes "Content-Type: " ++ content_type)
    ∷ (codes "Content-Length: " ++ to_string size)
    ∷ codes "Connection: close"
    ∷ []

status_line-NoReturn :
    (code : ℕ) (status : Bytes) → NoReturn status → NoReturn (status_line code status)
status_line-NoReturn code status h =
    All-append _ (codes "HTTP/1.1 ") _ (has-Lacks b'\r' (codes "HTTP/1.1 ") refl)
      (All-append _ (to_string code) _ (to_string-Lacks b'\r' code refl) (refl, h))

type_line-NoReturn :
    (content_type : Bytes)
    → NoReturn content_type
    → NoReturn (codes "Content-Type: " ++ content_type)
type_line-NoReturn content_type h =
    All-append _ (codes "Content-Type: ") _ (has-Lacks b'\r' (codes "Content-Type: ") refl) h

length_line-NoReturn : (size : ℕ) → NoReturn (codes "Content-Length: " ++ to_string size)
length_line-NoReturn size =
    All-append _ (codes "Content-Length: ") _ (has-Lacks b'\r' (codes "Content-Length: ") refl)
      (to_string-Lacks b'\r' size refl)

-- The response, line by line.
response-laid_out :
    (code : ℕ) (status content_type body : Bytes)
    → http_response code status content_type body
      ≡ laid_out (head_lines code status content_type (length body)) body
unfolding http_response
response-laid_out code status content_type body = refl

-- For any body, and a status and a type without a carriage return: a client that reads lines up to an
-- empty one, five or more, gets the four lines of the head and then the body, byte for byte,
-- and the length that the head declares is that of the body.
pub http_response-framed :
    (n code : ℕ) (status content_type body : Bytes)
    → NoReturn status
    → NoReturn content_type
    → (read_head (suc (suc (suc (suc (suc n))))) (http_response code status content_type body)
        ≡ some (head_lines code status content_type (length body), body))
      × (content_length (head_lines code status content_type (length body)) ≡ some (length body))
http_response-framed n code status content_type body h h' =
    let lines = head_lines code status content_type (length body) in
    (
      ap (read_head (one_each n lines)) (response-laid_out code status content_type body)
          ∙ read_head-laid_out n lines body (
            status_line-NoReturn code status h,
            (
              type_line-NoReturn content_type h',
              (
                length_line-NoReturn (length body),
                (has-Lacks b'\r' (codes "Connection: close") refl, tt),
              ),
            ),
          ),
      ap some (number_from-to_string (length body)),
    )
