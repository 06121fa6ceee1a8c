-- ===== src/Mysql/Server/Results.antt =====
-- What a client reads of a result set.
use turjmp.Prelude.{
  ℕ, ◌+◌, ◌%◌, ◌<◌, ◌≡◌, refl, sym, ap, ◌∙◌, inl, inr, Option, none, List, [], ◌∷◌, ◌++◌,
  append-nil, append_assoc, arith, ltb, Bool-cases, Option-cases, length, All, Bytes,
}
use turjmp.Mysql.{mysql_max_packet_size}
use turjmp.Mysql.Answers.{row_packet}
use turjmp.Mysql.LenEnc.{write_len_enc_int}
use turjmp.Mysql.Packet.{write_mysql_packet}
use turjmp.Mysql.Packet.Framing.{read_mysql_packet-write_mysql_packet}
use turjmp.Mysql.Server.{
  Column, Writer, sent, put_packet, put_packets, eof_payload, column_payload, put_rows, put_columns,
  put_end, write_result_set,
}
use mathlib.Core.List.{map}
use turjmp.Mysql.Server.Framed.{
  numbered, framed, seq_after, FitsPacket, read_packets, read_packets-framed, framed-append,
  seq_after-append, Fits-append,
}

abbrev HasWritten : Writer → List Bytes → Type 0
HasWritten w payloads =
    w.error ≡ none
    → (w.bytes ≡ framed 1 payloads) × ((w.seq ≡ seq_after 1 payloads) × All FitsPacket payloads)

module _ (too_large_text : ℕ → Bytes) where
  -- After an error nothing is written.
  put_failed :
      (w : Writer) (payload : Bytes)
      → (put_packet too_large_text w payload).error ≡ none
      → w.error ≡ none
  unfolding put_packet
  put_failed w payload h = elim (Option-cases w.error) [
    | inl e ↦ e
    | inr (m, e) ↦ absurd (ground (arith, e, h))
  ]

  put_fits :
      (w : Writer) (payload : Bytes)
      → w.error ≡ none
      → (put_packet too_large_text w payload).error ≡ none
      → FitsPacket payload
  unfolding put_packet write_mysql_packet
  put_fits w payload e h = elim (Bool-cases (ltb mysql_max_packet_size (length payload))) [
    | inl f ↦ absurd (ground (arith, e, f, h))
    | inr f ↦ ground (arith, f)
  ]

  put_ok :
      (w : Writer) (payload : Bytes)
      → w.error ≡ none
      → FitsPacket payload
      → put_packet too_large_text w payload ≡ record w {
        bytes = w.bytes ++ sent (write_mysql_packet w.seq payload);
        seq = (w.seq + 1) % 256;
      }
  unfolding put_packet
  put_ok w payload e f =
      let (packet, written, _) = read_mysql_packet-write_mysql_packet w.seq payload [] f in
      ground (arith, e, written)

  put_packet-HasWritten :
      (w : Writer) (payloads : List Bytes) (payload : Bytes)
      → HasWritten w payloads
      → HasWritten (put_packet too_large_text w payload) (payloads ++ payload ∷ [])
  put_packet-HasWritten w payloads payload h good =
      let before = put_failed w payload good in
      let fits = put_fits w payload before good in
      let (bytes, (seq, all_fit)) = h before in
      rw
        (
          put_ok w payload before fits,
          framed-append 1 payloads payload,
          seq_after-append 1 payloads payload,
          bytes,
          seq,
        )
        (refl, (refl, Fits-append payloads payload all_fit fits))

  put_packets-HasWritten :
      (w : Writer) (payloads more : List Bytes)
      → HasWritten w payloads
      → HasWritten (put_packets too_large_text w more) (payloads ++ more)
  unfolding put_packets
  put_packets-HasWritten w payloads [] h = rw (append-nil payloads) h
  put_packets-HasWritten w payloads (q ∷ qs) h = rw (sym (append_assoc payloads (q ∷ []) qs)) (
      put_packets-HasWritten (put_packet too_large_text w q) (payloads ++ q ∷ []) qs
        (put_packet-HasWritten w payloads q h))

  put_rows-HasWritten :
      (w : Writer) (payloads : List Bytes) (count : ℕ) (rows : List (List (Option Bytes)))
      → HasWritten w payloads
      → HasWritten (put_rows too_large_text w count rows).0 (payloads ++ map row_packet rows)
        × ((put_rows too_large_text w count rows).0.error ≡ none
            → (put_rows too_large_text w count rows).1 ≡ count + length rows)
  unfolding put_rows
  put_rows-HasWritten w payloads count [] h = (rw (append-nil payloads) h, λ _. omega arith)
  put_rows-HasWritten w payloads count (row ∷ rows) h =
      let next = put_packet too_large_text w (row_packet row) in
      let (written, counted) =
        put_rows-HasWritten next (payloads ++ row_packet row ∷ []) (count + 1) rows
          (put_packet-HasWritten w payloads (row_packet row) h) in
      elim (Option-cases next.error) [
        | inr (m, e) ↦
            rw (e, put_rows) ((λ good. absurd (cc (good, e))), (λ good. absurd (cc (good, e))))
        | inl e ↦
            rw
              (e, put_rows, sym (append_assoc payloads (row_packet row ∷ []) (map row_packet rows)))
              (written, λ good. omega (arith, counted good))
      ]

  -- The packets of a result set.
  abbrev pub result_set : List Column → List (List (Option Bytes)) → List Bytes
  result_set columns rows =
      (((write_len_enc_int [] (length columns) ∷ map (column_payload too_large_text) columns)
          ++ eof_payload too_large_text ∷ [])
        ++ map row_packet rows)
      ++ eof_payload too_large_text ∷ []

  columns-HasWritten :
      (columns : List Column)
      → HasWritten
          (put_columns too_large_text (record { bytes = []; seq = 1; error = none }) columns)
          ((write_len_enc_int [] (length columns) ∷ map (column_payload too_large_text) columns)
            ++ eof_payload too_large_text ∷ [])
  unfolding put_columns
  columns-HasWritten columns =
      let start : Writer = record { bytes = []; seq = 1; error = none } in
      let header = write_len_enc_int [] (length columns) in
      put_packet-HasWritten _ (header ∷ map (column_payload too_large_text) columns)
        (eof_payload too_large_text)
        (put_packets-HasWritten _ (header ∷ []) (map (column_payload too_large_text) columns)
          (put_packet-HasWritten start [] header (λ _. (refl, (refl, tt)))))

  end-HasWritten :
      (w : Writer) (payloads : List Bytes) (rows_error : Option Bytes)
      → HasWritten w payloads
      → (put_end too_large_text w rows_error).error ≡ none
      → (w.error ≡ none)
        × HasWritten
            (put_end too_large_text w rows_error)
            (payloads ++ eof_payload too_large_text ∷ [])
  unfolding put_end
  end-HasWritten w payloads rows_error h good = elim (Option-cases w.error) [
    | inr (m, e) ↦ absurd (ground (arith, e, good))
    | inl e ↦ elim (Option-cases rows_error) [
      | inr (m, f) ↦ absurd (ground (arith, e, f, good))
      | inl f ↦
          (e, rw (e, f, put_end) (put_packet-HasWritten w payloads (eof_payload too_large_text) h))
    ]
  ]

  rows_read :
      (w : Writer) (front : List Bytes) (rows : List (List (Option Bytes)))
      (rows_error : Option Bytes) (fuel : ℕ)
      → HasWritten w front
      → (put_end too_large_text (put_rows too_large_text w 0 rows).0 rows_error).error ≡ none
      → length ((front ++ map row_packet rows) ++ eof_payload too_large_text ∷ []) < fuel
      → (read_packets fuel
            (put_end too_large_text (put_rows too_large_text w 0 rows).0 rows_error).bytes
          ≡ numbered 1 ((front ++ map row_packet rows) ++ eof_payload too_large_text ∷ []))
        × ((put_rows too_large_text w 0 rows).1 ≡ length rows)
  rows_read w front rows rows_error fuel start good enough =
      let (written, counted) = put_rows-HasWritten w front 0 rows start in
      let whole = (front ++ map row_packet rows) ++ eof_payload too_large_text ∷ [] in
      let (rows_good, ended) =
        end-HasWritten (put_rows too_large_text w 0 rows).0 (front ++ map row_packet rows)
          rows_error written good in
      let (bytes, (_, fits)) = ended good in
      (rw bytes (read_packets-framed fuel 1 whole fits enough), omega (arith, counted rows_good))

  set_written :
      (columns : List Column) (rows : List (List (Option Bytes))) (rows_error : Option Bytes)
      → (write_result_set too_large_text columns rows rows_error).0.error ≡ none
      → write_result_set too_large_text columns rows rows_error ≡ (
        put_end too_large_text
            (put_rows too_large_text
              (put_columns too_large_text (record { bytes = []; seq = 1; error = none }) columns)
              0
              rows).0
            rows_error,
        (put_rows too_large_text
            (put_columns too_large_text (record { bytes = []; seq = 1; error = none }) columns)
            0
            rows).1,
      )
  unfolding write_result_set
  set_written columns rows rows_error good =
      let w = put_columns too_large_text (record { bytes = []; seq = 1; error = none }) columns in
      elim (Option-cases w.error) [
        | inr (m, e) ↦ absurd (ground (arith, e, good))
        | inl e ↦ ground (arith, e)
      ]

  -- If a result set is written without an error, the client reads the number of columns, the columns, a
  -- separator, all rows in order and the end, numbered from 1 on and modulo 256, and nothing else; and
  -- the count for the audit is the number of rows.
  pub write_result_set-read :
      (columns : List Column) (rows : List (List (Option Bytes))) (rows_error : Option Bytes)
      (fuel : ℕ)
      → (write_result_set too_large_text columns rows rows_error).0.error ≡ none
      → length (result_set columns rows) < fuel
      → (read_packets fuel (write_result_set too_large_text columns rows rows_error).0.bytes
          ≡ numbered 1 (result_set columns rows))
        × ((write_result_set too_large_text columns rows rows_error).1 ≡ length rows)
  write_result_set-read columns rows rows_error fuel good enough =
      let w = put_columns too_large_text (record { bytes = []; seq = 1; error = none }) columns in
      let front =
        (write_len_enc_int [] (length columns) ∷ map (column_payload too_large_text) columns)
        ++ eof_payload too_large_text ∷ [] in
      let same = set_written columns rows rows_error good in
      rw same (
        rows_read w front rows rows_error fuel (columns-HasWritten columns)
          (ap (λ (q : Writer × ℕ). q.0.error) (sym same) ∙ good) enough)
