-- ===== src/H02/Encode/Sentence.antt =====
-- commands.go: an encoded command is one sentence, with the fields that were put in it.
use mathlib.Core.List.{append_assoc}
use farbo_rastreamento.Prelude.{
  ℕ, suc, ◌+◌, ◌≡◌, refl, sym, ap, ◌∙◌, subst, false, not, some, List, [], ◌∷◌, ◌++◌, arith, ◌==◌,
  length, length-append, take_all, All, Result, ok, err, >>=-eq-ok, fail_if-eq-ok,
}
use farbo_rastreamento.Prelude.Words.{Bytes}
use farbo_rastreamento.Protocols.Framing.{framed}
use farbo_rastreamento.Protocols.Calendar.{CivilTime}
use farbo_rastreamento.Protocols.Text.{
  codes, is_digit, trim_space, trim_suffix, split, join, decimal,
}
use farbo_rastreamento.Protocols.Text.Fields.{Lacks, Lacks-join, split-join, trim_suffix-append}
use farbo_rastreamento.Protocols.Text.Digits.{IsDigits, IsDigits-Lacks, decimal-IsDigits}
use farbo_rastreamento.Protocols.Imei.Digits.{validate_imei-IsDigits}
use farbo_rastreamento.Protocols.Text.Trim.{trim_space-twice}
use farbo_rastreamento.Protocols.Imei.{ImeiError, validate_imei}
use farbo_rastreamento.Protocols.Message.{
  CommandType, engine_cut, engine_resume, request_position, request_status, set_interval,
  set_heartbeat, set_server, reboot, custom, Command,
}
use farbo_rastreamento.H02.Frame.{next_frame, index_where, index_of_byte, text_frame}
use farbo_rastreamento.H02.Frame.Contract.{by_text}
use farbo_rastreamento.H02.Encode.{
  EncodeError, bad_password, bad_text, clock_text, with_params, format_command, bounded_int,
  sentence_of, safe_command_text, encode_typed, wrap_id,
}

-- The fields of a sentence, and its text.
abbrev pub fields_of : CivilTime → Bytes → Bytes → List Bytes → List Bytes
fields_of now id typ params = codes "*HQ" ∷ id ∷ typ ∷ clock_text now ∷ params

-- Each parameter behind a comma, and the end: the rest of a joined list.
with_params-join :
    (p : Bytes) (ps : List Bytes) → p ++ with_params ps ≡ join b',' (p ∷ ps) ++ codes "#"
unfolding with_params join
with_params-join p [] = refl
with_params-join p (q ∷ ps) =
    ap (λ s. p ++ (b',' ∷ s)) (with_params-join q ps)
    ∙ sym (append_assoc p (b',' ∷ join b',' (q ∷ ps)) (codes "#"))

format_command-join :
    (now : CivilTime) (id typ : Bytes) (params : List Bytes)
    → format_command now id typ params ≡ join b',' (fields_of now id typ params) ++ codes "#"
unfolding format_command with_params
format_command-join now id typ params =
    with_params-join (codes "*HQ") (id ∷ typ ∷ clock_text now ∷ params)

-- What the switch gives has no mark in it.
sentence_of-Lacks :
    (sep : ℕ) (command : CommandType) (params : Bytes → Bytes) (typ : Bytes) (out : List Bytes)
    → is_digit sep ≡ false
    → (b'S' == sep) ≡ false
    → sentence_of command params ≡ ok (typ, out)
    → Lacks sep typ × All (Lacks sep) out
unfolding sentence_of
sentence_of-Lacks sep engine_cut params typ out mark other h = ground arith
sentence_of-Lacks sep engine_resume params typ out mark other h = ground arith
sentence_of-Lacks sep set_interval params typ out mark other h =
    let (seconds, bounded, e) = >>=-eq-ok (bounded_int (params (codes "seconds")) 5 18000) _ h in
    let digits = IsDigits-Lacks sep (decimal seconds) mark (decimal-IsDigits seconds) in
    ground arith
sentence_of-Lacks sep custom params typ out mark other h = cc
sentence_of-Lacks sep request_position params typ out mark other h = cc
sentence_of-Lacks sep request_status params typ out mark other h = cc
sentence_of-Lacks sep set_heartbeat params typ out mark other h = cc
sentence_of-Lacks sep set_server params typ out mark other h = cc
sentence_of-Lacks sep reboot params typ out mark other h = cc

clock_text-IsDigits : (now : CivilTime) → IsDigits (clock_text now)
unfolding clock_text
clock_text-IsDigits now = (
  ground arith,
  (ground arith, (ground arith, (ground arith, (ground arith, (ground arith, tt))))),
)

-- The sentence ends at the first character of its kind.
index_where-end :
    (end i : ℕ) (s : Bytes)
    → Lacks end s
    → index_where (λ b. b == end) i (s ++ end ∷ []) ≡ some (i + length s)
unfolding index_where
index_where-end end i [] h = ground arith
index_where-end end i (c ∷ s) h = ground (arith, index_where-end end (i + 1) s)

-- A text that starts with the marker and has one end is separated whole.
next_frame-text :
    (size : ℕ) (body : Bytes)
    → Lacks b'#' (b'*' ∷ body)
    → let text = b'*' ∷ (body ++ b'#' ∷ []) in next_frame size text ≡ framed text (length text)
unfolding index_of_byte text_frame
next_frame-text size body clean =
    let text = b'*' ∷ (body ++ b'#' ∷ []) in
    let long = length-append body (b'#' ∷ []) in
    let whole : suc (length body) + 1 ≡ length text = omega arith in
    by_text size b'*' (body ++ b'#' ∷ []) (some (suc (length body))) refl refl
      (index_where-end b'#' 0 (b'*' ∷ body) clean ∙ ap some (omega arith))
    ∙ rw whole (ap (λ f. framed f (length text)) (take_all (length text) text (omega arith)))

next_frame-join :
    (size : ℕ) (rest : List Bytes)
    → All (Lacks b'#') (codes "*HQ" ∷ rest)
    → let text = join b',' (codes "*HQ" ∷ rest) ++ codes "#" in
      next_frame size text ≡ framed text (length text)
unfolding join
next_frame-join size [] clean =
    next_frame-text size (codes "HQ") (Lacks-join b',' b'#' (codes "*HQ" ∷ []) refl clean)
next_frame-join size (p ∷ ps) clean =
    next_frame-text size (codes "HQ" ++ (b',' ∷ join b',' (p ∷ ps)))
      (Lacks-join b',' b'#' (codes "*HQ" ∷ p ∷ ps) refl clean)

ok-inj : {a b : Bytes} → ◌≡◌ {A = Result EncodeError Bytes} (ok a) (ok b) → a ≡ b
ok-inj h = cc

wrap_id-ok : (r : Result ImeiError (Unit {0})) {out : Unit {0}} → wrap_id r ≡ ok out → r ≡ ok tt
wrap_id-ok (ok tt) h = refl
wrap_id-ok (err e) h = cc

-- A sentence of fields without marks is read back.
format_command-fields :
    (size : ℕ) (now : CivilTime) (id typ : Bytes) (params : List Bytes)
    → All (Lacks b',') (fields_of now id typ params)
    → All (Lacks b'#') (fields_of now id typ params)
    → (split b',' (trim_suffix b'#' (format_command now id typ params))
        ≡ fields_of now id typ params)
      × (next_frame size (format_command now id typ params)
          ≡ framed (format_command now id typ params) (length (format_command now id typ params)))
format_command-fields size now id typ params commas ends =
    let fields = id ∷ typ ∷ clock_text now ∷ params in
    let joined = format_command-join now id typ params in
    (
      ap (λ t. split b',' (trim_suffix b'#' t)) joined
          ∙ ap (split b',') (trim_suffix-append b'#' (join b',' (codes "*HQ" ∷ fields)))
          ∙ split-join b',' (codes "*HQ") fields commas,
      subst (λ t. next_frame size t ≡ framed t (length t)) (sym joined)
          (next_frame-join size fields ends),
    )

-- No field of an accepted command has a mark in it.
fields_of-Lacks :
    (sep : ℕ) (now : CivilTime) (id typ : Bytes) (params : List Bytes) (command : CommandType)
    (given : Bytes → Bytes)
    → is_digit sep ≡ false
    → (b'S' == sep) ≡ false
    → Lacks sep (codes "*HQ")
    → IsDigits id
    → sentence_of command given ≡ ok (typ, params)
    → All (Lacks sep) (fields_of now id typ params)
fields_of-Lacks sep now id typ params command given mark other head digits chosen =
    let (clean, all_clean) = sentence_of-Lacks sep command given typ params mark other chosen in
    (
      head,
      (
        IsDigits-Lacks sep id mark digits,
        (clean, (IsDigits-Lacks sep (clock_text now) mark (clock_text-IsDigits now), all_clean)),
      ),
    )

-- Whatever command `EncodeCommand` accepts without a raw text is one sentence, and cannot be made
-- into two by its fields: `NextFrame` separates it whole, and between its commas it has the header,
-- the identifier as it was given, the type and the parameters that the command stands for, and the
-- time.
pub encode_typed-fields :
    (size : ℕ) (now : CivilTime) (cmd : Command) (text : Bytes)
    → encode_typed now cmd ≡ ok text
    → (typ : Bytes) × (params : List Bytes) × (sentence_of cmd.typ cmd.params ≡ ok (typ, params))
      × (split b',' (trim_suffix b'#' text)
          ≡ codes "*HQ" ∷ trim_space cmd.unique_id ∷ typ ∷ clock_text now ∷ params)
      × (next_frame size text ≡ framed text (length text))
unfolding encode_typed
encode_typed-fields size now cmd text h =
    let id = trim_space cmd.unique_id in
    let (valid, h1, h2) = >>=-eq-ok (wrap_id (validate_imei id)) _ h in
    let (_, h3) = fail_if-eq-ok _ bad_password _ h2 in
    let ((typ, params), chosen, h4) = >>=-eq-ok (sentence_of cmd.typ cmd.params) _ h3 in
    let (_, h5) =
      fail_if-eq-ok (not (safe_command_text (format_command now id typ params))) bad_text
        (ok (format_command now id typ params)) h4 in
    let same : format_command now id typ params ≡ text = ok-inj h5 in
    let digits =
      subst IsDigits (trim_space-twice cmd.unique_id)
        (validate_imei-IsDigits id (wrap_id-ok _ h1)) in
    let (read, whole) =
      format_command-fields size now id typ params
        (fields_of-Lacks b',' now id typ params cmd.typ cmd.params refl refl
          (refl, (refl, (refl, tt))) digits chosen)
        (fields_of-Lacks b'#' now id typ params cmd.typ cmd.params refl refl
          (refl, (refl, (refl, tt))) digits chosen) in
    (
      typ,
      params,
      chosen,
      ap (λ t. split b',' (trim_suffix b'#' t)) (sym same) ∙ read,
      subst (λ t. next_frame size t ≡ framed t (length t)) same whole,
    )
