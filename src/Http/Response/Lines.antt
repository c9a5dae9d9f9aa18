-- ===== src/Http/Response/Lines.antt =====
-- No header and no reason phrase can break out of its line.
use asio_owen.Prelude.{
  ℕ, Bool, true, false, not, ◌&&◌, ◌||◌, leb, List, [], ◌∷◌, ◌++◌, append_assoc, append-nil,
  if◌then◌else◌, Bytes, codes, length, any, any_none, map, Option, none, some, ◌≤◌, ◌<◌, suc, zero,
  length-append, keep, is_empty, All, All-append, All-imp, ◌≡◌, refl, sym, ap, ◌∙◌, arith, ◌==◌,
  Bool-cases, inl, inr,
}
use asio_owen.Http.Numbers.{to_string}
use asio_owen.Http.Numbers.Print.{to_string-All}
use asio_owen.Http.Headers.{Header}
use asio_owen.Http.Body.{find_crlf}
use asio_owen.Http.Context.{HttpContext}
use asio_owen.Http.Response.{
  reason_phrase, class_phrase, status_phrase, is_safe_reason_phrase, is_safe_header, is_break,
  is_written, written_headers, write_headers, text_if, crlf, end_line, has_name,
  http_response_has_no_body, response_head, build_downstream_response,
}

-- A line with no line break and no zero byte.
abbrev pub IsLine : Bytes → Type 0
IsLine = All (λ c. is_break c ≡ false)

abbrev pub join : List Bytes → Bytes
join [] = []
join (line ∷ lines) = end_line line ++ join lines

join-append : (a b : List Bytes) → join (a ++ b) ≡ join a ++ join b
join-append [] b = refl
join-append (line ∷ a) b =
    ap (λ t. end_line line ++ t) (join-append a b)
    ∙ sym (append_assoc (end_line line) (join a) (join b))

-- One that is not empty, either.
abbrev IsFull : Bytes → Type 0
IsFull line = IsLine line × (is_empty line ≡ false)

-- A text that consists of such lines.
abbrev IsLines : Bytes → List Bytes → Type 0
IsLines s lines = (s ≡ join lines) × All IsFull lines

IsLines-append :
    (a b : Bytes) (la lb : List Bytes) → IsLines a la → IsLines b lb → IsLines (a ++ b) (la ++ lb)
IsLines-append a b la lb (ea, ha) (eb, hb) = (
  ap (λ t. t ++ b) ea ∙ ap (λ t. join la ++ t) eb ∙ sym (join-append la lb),
  All-append IsFull la lb ha hb,
)

IsLines-line : (a : Bytes) → IsFull a → IsLines (end_line a) (a ∷ [])
IsLines-line a h = (sym (append-nil (end_line a)), (h, tt))

abbrev lines_if : Bool → List Bytes → List Bytes
lines_if true lines = lines
lines_if false lines = []

IsLines-text_if :
    (b : Bool) (a : Bytes) (lines : List Bytes)
    → IsLines a lines
    → IsLines (text_if b a) (lines_if b lines)
IsLines-text_if true a lines h = h
IsLines-text_if false a lines h = (refl, tt)

IsLine-append : (a b : Bytes) → IsLine a → IsLine b → IsLine (a ++ b)
IsLine-append a b = All-append (λ c. is_break c ≡ false) a b

text-IsLine : (s : Bytes) → any is_break s ≡ false → IsLine s
text-IsLine s h = any_none is_break s h

to_string-IsLine : (n : ℕ) → IsLine (to_string n)
to_string-IsLine n = to_string-All (λ c. is_break c ≡ false) (λ d h. ground arith) n

reason_phrase-IsLine : (status : ℕ) → IsLine (reason_phrase status)
unfolding reason_phrase
reason_phrase-IsLine status = ground arith

class_phrase-IsLine : (status : ℕ) → IsLine (class_phrase status)
unfolding class_phrase
class_phrase-IsLine status = ground arith

status_phrase-IsLine : (status : ℕ) (text : Bytes) → IsLine (status_phrase status text)
unfolding status_phrase is_safe_reason_phrase
status_phrase-IsLine status text =
    elim (Bool-cases (not (is_empty text) && not (any is_break text))) [
      | inl e ↦ rw (e, status_phrase) (any_none is_break text (ground arith))
      | inr e ↦
          rw (e, status_phrase)
            (elim (Bool-cases (is_empty (reason_phrase status))) [
              | inl f ↦ rw f (class_phrase-IsLine status)
              | inr f ↦ rw f (reason_phrase-IsLine status)
            ])
    ]

is_safe_header-IsLine :
    (name value : Bytes) → is_safe_header name value ≡ true → IsLine name × IsLine value
unfolding is_safe_header
is_safe_header-IsLine name value h = (
  All-imp (λ c. (is_break c || c == b':') ≡ false) (λ c. is_break c ≡ false) (λ c e. ground arith)
      name (any_none (λ c. is_break c || c == b':') name (ground arith)),
  any_none is_break value (ground arith),
)

is_written-safe :
    (ctx : HttpContext) (method : Bytes) (proxy_response : Bool) (k v : Bytes)
    → is_written ctx method proxy_response (k, v) ≡ true
    → is_safe_header k v ≡ true
unfolding is_written
is_written-safe ctx method true k v h = ground arith
is_written-safe ctx method false k v h = ground arith

abbrev header_text : Header → Bytes
header_text (k, v) = k ++ codes ": " ++ v

header_text_full : (k v : Bytes) → is_empty (k ++ codes ": " ++ v) ≡ false
header_text_full [] v = refl
header_text_full (c ∷ k) v = refl

write_headers-IsLines :
    (headers : List Header)
    → All (λ h. is_safe_header h.0 h.1 ≡ true) headers
    → IsLines (write_headers headers) (map header_text headers)
unfolding write_headers
write_headers-IsLines [] h = (refl, tt)
write_headers-IsLines ((k, v) ∷ headers) h =
    let (a, b) = is_safe_header-IsLine k v h.0 in
    IsLines-append (end_line (k ++ codes ": " ++ v)) (write_headers headers)
      (header_text (k, v) ∷ []) (map header_text headers)
      (IsLines-line (k ++ codes ": " ++ v) (
        IsLine-append (k ++ codes ": ") v
            (IsLine-append k (codes ": ") a (text-IsLine (codes ": ") refl)) b,
        header_text_full k v,
      ))
      (write_headers-IsLines headers h.1)

-- Every header that is written is safe.
written_headers_safe :
    (ctx : HttpContext) (method : Bytes) (proxy_response : Bool) (headers : List Header)
    → All (λ h. is_safe_header h.0 h.1 ≡ true) (keep (is_written ctx method proxy_response) headers)
written_headers_safe ctx method proxy_response [] = tt
written_headers_safe ctx method proxy_response ((k, v) ∷ headers) =
    elim (Bool-cases (is_written ctx method proxy_response (k, v))) [
      | inl e ↦
          rw (e, keep)
            (
              is_written-safe ctx method proxy_response k v e,
              written_headers_safe ctx method proxy_response headers,
            )
      | inr e ↦ rw (e, keep) (written_headers_safe ctx method proxy_response headers)
    ]

literal_if :
    (b : Bool) (s : Bytes)
    → any is_break s ≡ false
    → is_empty s ≡ false
    → IsLines (text_if b (end_line s)) (lines_if b (s ∷ []))
literal_if b s h k = IsLines-text_if b (end_line s) (s ∷ []) (IsLines-line s (text-IsLine s h, k))

source-IsLine : (b : Bool) → IsLine (if b then codes "proxy" else codes "local")
source-IsLine true = text-IsLine (codes "proxy") refl
source-IsLine false = text-IsLine (codes "local") refl

length-IsLine : (b : Bool) (n : ℕ) → IsLine (if b then codes "0" else to_string n)
length-IsLine true n = text-IsLine (codes "0") refl
length-IsLine false n = to_string-IsLine n

status-IsLine :
    (status : ℕ) (phrase : Bytes)
    → IsLine phrase
    → IsLine (codes "HTTP/1.1 " ++ to_string status ++ codes " " ++ phrase)
status-IsLine status phrase h =
    IsLine-append (codes "HTTP/1.1 " ++ to_string status ++ codes " ") phrase
      (IsLine-append (codes "HTTP/1.1 " ++ to_string status) (codes " ")
        (IsLine-append (codes "HTTP/1.1 ") (to_string status) (text-IsLine (codes "HTTP/1.1 ") refl)
          (to_string-IsLine status))
        (text-IsLine (codes " ") refl))
      h

-- The lines of a response: what it says of itself, and between that one line for each header that is
-- written.
abbrev pub head_lines : HttpContext → Bytes → Bool → List Bytes
head_lines ctx method proxy_response =
    let no_body = http_response_has_no_body method ctx.status_code in
    let written = written_headers ctx method proxy_response in
    let has_upstream_cl =
      proxy_response && no_body && has_name (codes "content-length") ctx.response_headers in
    (codes "HTTP/1.1 "
        ++ to_string ctx.status_code
        ++ codes " "
        ++ status_phrase ctx.status_code ctx.response_status_text)
      ∷ map header_text written
    ++ lines_if (not (has_name (codes "content-type") written) && not no_body)
        (codes "Content-Type: application/json" ∷ [])
    ++ lines_if (leb 400 ctx.status_code) (
        codes "Connection: close"
        ∷ (codes "X-Asio-Owen-Status-Source: "
            ++ (if proxy_response then codes "proxy" else codes "local"))
        ∷ [])
    ++ lines_if (not has_upstream_cl) (
        (codes "Content-Length: "
          ++ (if no_body then codes "0" else to_string (length ctx.response_body)))
        ∷ [])

response_head-IsLines :
    (ctx : HttpContext) (method : Bytes) (proxy_response : Bool)
    → IsLines (response_head ctx method proxy_response) (head_lines ctx method proxy_response)
unfolding response_head written_headers
response_head-IsLines ctx method proxy_response =
    let no_body = http_response_has_no_body method ctx.status_code in
    let written = written_headers ctx method proxy_response in
    let has_upstream_cl =
      proxy_response && no_body && has_name (codes "content-length") ctx.response_headers in
    let phrase = status_phrase ctx.status_code ctx.response_status_text in
    let source = if proxy_response then codes "proxy" else codes "local" in
    let size = if no_body then codes "0" else to_string (length ctx.response_body) in
    let start = codes "HTTP/1.1 " ++ to_string ctx.status_code ++ codes " " ++ phrase in
    let from = codes "X-Asio-Owen-Status-Source: " ++ source in
    let type_lines =
      lines_if (not (has_name (codes "content-type") written) && not no_body)
        (codes "Content-Type: application/json" ∷ []) in
    let error_lines = codes "Connection: close" ∷ from ∷ [] in
    let size_lines = (codes "Content-Length: " ++ size) ∷ [] in
    let headers = map header_text written in
    IsLines-append _ _
      (start ∷ headers ++ type_lines ++ lines_if (leb 400 ctx.status_code) error_lines)
      (lines_if (not has_upstream_cl) size_lines)
      (IsLines-append _ _ (start ∷ headers ++ type_lines)
        (lines_if (leb 400 ctx.status_code) error_lines)
        (IsLines-append _ _ (start ∷ headers) type_lines
          (IsLines-append _ _ (start ∷ []) headers
            (IsLines-line start (
              status-IsLine ctx.status_code phrase
                  (status_phrase-IsLine ctx.status_code ctx.response_status_text),
              refl,
            ))
            (write_headers-IsLines _
              (written_headers_safe ctx method proxy_response ctx.response_headers)))
          (literal_if (not (has_name (codes "content-type") written) && not no_body)
            (codes "Content-Type: application/json") refl refl))
        (IsLines-text_if (leb 400 ctx.status_code) _ error_lines (
          IsLines-append _ _ (codes "Connection: close" ∷ []) (from ∷ [])
            (literal_if true (codes "Connection: close") refl refl)
            (IsLines-line from (
              IsLine-append (codes "X-Asio-Owen-Status-Source: ") source
                  (text-IsLine (codes "X-Asio-Owen-Status-Source: ") refl)
                  (source-IsLine proxy_response),
              refl,
            )))))
      (IsLines-text_if (not has_upstream_cl) _ size_lines (
        IsLines-line (codes "Content-Length: " ++ size) (
          IsLine-append (codes "Content-Length: ") size
              (text-IsLine (codes "Content-Length: ") refl)
              (length-IsLine no_body (length ctx.response_body)),
          refl,
        )))

-- A reader of a message: its lines, each up to the next line break, up to an empty one, and what
-- stands behind that.
abbrev add_line : Bytes → Option (List Bytes × Bytes) → Option (List Bytes × Bytes)
add_line line none = none
add_line line (some (lines, rest)) = some (line ∷ lines, rest)

abbrev read_next :
    (Bytes → Option (List Bytes × Bytes)) → Option (Bytes × Bytes) → Option (List Bytes × Bytes)
read_next more none = none
read_next more (some ([], rest)) = some ([], rest)
read_next more (some (c ∷ line, rest)) = add_line (c ∷ line) (more rest)

abbrev pub read_message : ℕ → Bytes → Option (List Bytes × Bytes)
read_message zero s = none
read_message (suc fuel) s = read_next (read_message fuel) (find_crlf s)

find_crlf-line : (a s : Bytes) → IsLine a → find_crlf (a ++ 13 ∷ 10 ∷ s) ≡ some (a, s)
unfolding find_crlf
find_crlf-line [] s h = refl
find_crlf-line (c ∷ []) s h = ground arith
find_crlf-line (c ∷ d ∷ a) s h = ground (arith, find_crlf-line (d ∷ a) s h.1)

read_message_line :
    (fuel : ℕ) (a s : Bytes)
    → IsFull a
    → read_message (suc fuel) (end_line a ++ s) ≡ add_line a (read_message fuel s)
read_message_line fuel a s (h, k) =
    ap (read_next (read_message fuel)) (ap find_crlf (append_assoc a crlf s) ∙ find_crlf-line a s h)
    ∙ full a k
  where
    full :
        (a : Bytes)
        → is_empty a ≡ false
        → read_next (read_message fuel) (some (a, s)) ≡ add_line a (read_message fuel s)
    full [] e = cc
    full (c ∷ a) e = refl

read_message-join :
    (fuel : ℕ) (lines : List Bytes) (body : Bytes)
    → All IsFull lines
    → length lines < fuel
    → read_message fuel (join lines ++ crlf ++ body) ≡ some (lines, body)
unfolding find_crlf
read_message-join zero lines body h l = absurd (omega arith)
read_message-join (suc fuel) [] body h l = refl
read_message-join (suc fuel) (line ∷ lines) body h l =
    ap (λ t. read_message (suc fuel) (t ++ body)) (append_assoc (end_line line) (join lines) crlf)
    ∙ ap (read_message (suc fuel)) (append_assoc (end_line line) (join lines ++ crlf) body)
    ∙ read_message_line fuel line (join lines ++ crlf ++ body) h.0
    ∙ ap (add_line line) (read_message-join fuel lines body h.1 (omega arith))

length-join : (lines : List Bytes) → length lines ≤ length (join lines)
length-join [] = omega arith
length-join (line ∷ lines) =
    omega (
      arith,
      length-append (end_line line) (join lines),
      length-append line crlf,
      length-join lines,
    )

-- Whoever reads a response line by line finds its status line, one line for each header that is
-- written and the lines that the gateway adds, in this order and no others, then exactly the body,
-- which is left out where there is none: no header and no phrase, whatever its bytes, starts a line of
-- its own. No line has a carriage return, a line feed or a zero byte.
pub build_downstream_response-IsLines :
    (ctx : HttpContext) (method : Bytes) (proxy_response : Bool)
    → (read_message
          (suc (length (build_downstream_response ctx method proxy_response)))
          (build_downstream_response ctx method proxy_response)
        ≡ some (
          head_lines ctx method proxy_response,
          text_if (not (http_response_has_no_body method ctx.status_code)) ctx.response_body,
        ))
      × All IsLine (head_lines ctx method proxy_response)
unfolding build_downstream_response
build_downstream_response-IsLines ctx method proxy_response =
    let lines = head_lines ctx method proxy_response in
    let body = text_if (not (http_response_has_no_body method ctx.status_code)) ctx.response_body in
    let (e, h) = response_head-IsLines ctx method proxy_response in
    let whole = ap (λ head. head ++ crlf ++ body) e in
    (
      ap (read_message (suc (length (build_downstream_response ctx method proxy_response)))) whole
          ∙ read_message-join (suc (length (build_downstream_response ctx method proxy_response)))
              lines body h
              (omega (
                arith,
                ap length whole,
                length-join lines,
                length-append (join lines ++ crlf) body,
                length-append (join lines) crlf,
              )),
      All-imp IsFull IsLine (λ line k. k.0) lines h,
    )
