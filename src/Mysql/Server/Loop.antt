-- ===== src/Mysql/Server/Loop.antt =====
-- The command loop of mysql_server.go, over the bytes that the client sends.
use turjmp.Prelude.{
  ℕ, zero, suc, ◌≤◌, ◌<◌, ◌≡◌, refl, sym, ap, ◌∙◌, ◌≢◌, ◌⊎◌, inl, inr, Bool, true, false, ◌||◌,
  none, some, List, [], ◌∷◌, ◌++◌, append-nil, append_assoc, arith, ◌==◌, if◌then◌else◌, Bool-cases,
  Option-cases, length, null, any, All, Bytes, codes,
}
use turjmp.Mysql.{mysql_max_packet_size}
use turjmp.Mysql.Packet.{
  ReadResult, got, eof, unexpected_eof, too_large, read_full, read_mysql_packet, write_mysql_packet,
}
use turjmp.Mysql.Packet.Framing.{read_mysql_packet-write_mysql_packet, read_mysql_packet_rest}
use turjmp.Strings.{trim_space, runes}
use turjmp.Mysql.Server.{
  sent, MysqlTarget, SqlAuditDetail, Proxy, handle_query, handle_init_db, handle_command,
}
use mathlib.Core.List.{map}

-- How a loop ends.
pub data LoopEnd : Type 0 where
  client_quit connection_failed out_of_fuel : LoopEnd

abbrev sqls : List SqlAuditDetail → List Bytes
sqls entries = map (λ (e : SqlAuditDetail). e.sql) entries

map-append : (xs ys : List SqlAuditDetail) → sqls (xs ++ ys) ≡ sqls xs ++ sqls ys
map-append [] ys = refl
map-append (x ∷ xs) ys = ap (◌∷◌ x.sql) (map-append xs ys)

module _ (too_large_text : ℕ → Bytes) (target : MysqlTarget) (session_id : ℕ) where
  -- Each round takes a packet from the connection.
  unfoldable pub command_loop :
      ℕ → Proxy too_large_text target → Bytes → Proxy too_large_text target × LoopEnd
  command_loop zero p conn = (p, LoopEnd.out_of_fuel)
  command_loop (suc fuel) p conn = elim (read_mysql_packet conn) [
    | got (payload, seq) rest ↦ elim (handle_command too_large_text target session_id p payload) [
      | none ↦ (p, LoopEnd.client_quit)
      | some after ↦ command_loop fuel after rest
    ]
    | eof ↦ (p, LoopEnd.connection_failed)
    | unexpected_eof ↦ (p, LoopEnd.connection_failed)
    | too_large ↦ (p, LoopEnd.connection_failed)
  ]

  ReadResult-cases {ℓ} :
      {A : Type ℓ} (r : ReadResult A)
      → ((a : A) × (rest : Bytes) × (r ≡ got a rest))
        ⊎ ((r ≡ eof) ⊎ ((r ≡ unexpected_eof) ⊎ (r ≡ too_large)))
  ReadResult-cases (got a rest) = inl (a, rest, refl)
  ReadResult-cases eof = inr (inl refl)
  ReadResult-cases unexpected_eof = inr (inr (inl refl))
  ReadResult-cases too_large = inr (inr (inr refl))

  -- The command loop ends, for every client and every target: with as much fuel as the client sends
  -- bytes and one more, it stops because the client quits or the connection fails.
  pub command_loop_ends :
      (fuel : ℕ) (p : Proxy too_large_text target) (conn : Bytes)
      → length conn < fuel
      → (command_loop fuel p conn).1 ≢ LoopEnd.out_of_fuel
  unfolding command_loop
  command_loop_ends zero p conn h = absurd (omega (arith, h))
  command_loop_ends (suc fuel) p conn h = elim (ReadResult-cases (read_mysql_packet conn)) [
    | inr (inl e) ↦ rw (e, command_loop) (λ q. cc q)
    | inr (inr (inl e)) ↦ rw (e, command_loop) (λ q. cc q)
    | inr (inr (inr e)) ↦ rw (e, command_loop) (λ q. cc q)
    | inl ((payload, seq), rest, e) ↦
        elim (Option-cases (handle_command too_large_text target session_id p payload)) [
          | inl f ↦ rw (e, f, command_loop) (λ q. cc q)
          | inr (after, f) ↦
              rw (e, f, command_loop)
                (command_loop_ends fuel after rest
                  (omega (arith, h, read_mysql_packet_rest conn payload rest seq e)))
        ]
  ]

  handle_query-audits :
      (p : Proxy too_large_text target) (sql : Bytes)
      → sqls (handle_query too_large_text target session_id p sql).audits
        ≡ sqls p.audits ++ sql ∷ []
  unfolding handle_query
  handle_query-audits p sql = elim (Bool-cases (null (trim_space (runes sql)))) [
    | inl e ↦ rw e (map-append p.audits _)
    | inr e ↦ rw e (map-append p.audits _)
  ]

  handle_init_db-audits :
      (p : Proxy too_large_text target) (name : Bytes)
      → sqls (handle_init_db too_large_text target session_id p name).audits
        ≡ sqls p.audits ++ (codes "USE " ++ name) ∷ []
  unfolding handle_init_db
  handle_init_db-audits p name = map-append p.audits _

  -- The statements that a command brings to the target: the text of COM_QUERY, and the USE of
  -- COM_INIT_DB.
  abbrev pub statements_of : Bytes → List Bytes
  statements_of [] = []
  statements_of (c ∷ rest) =
      if c == 0x02 then (codes "USE " ++ rest) ∷ [] else if c == 0x03 then rest ∷ [] else []

  abbrev pub is_quit : Bytes → Bool
  is_quit [] = false
  is_quit (c ∷ rest) = c == 0x01

  -- The statements of the commands up to the first COM_QUIT.
  abbrev pub statements_until_quit : List Bytes → List Bytes
  statements_until_quit [] = []
  statements_until_quit (payload ∷ rest) =
      if is_quit payload then [] else statements_of payload ++ statements_until_quit rest

  abbrev pub end_of : List Bytes → LoopEnd
  end_of payloads = if any is_quit payloads then LoopEnd.client_quit else LoopEnd.connection_failed

  -- What one command that is not COM_QUIT leaves in the audit.
  handle_command-audits :
      (p : Proxy too_large_text target) (payload : Bytes)
      → is_quit payload ≡ false
      → (after : Proxy too_large_text target) × ((handle_command too_large_text target session_id p
              payload
            ≡ some after)
          × (sqls after.audits ≡ sqls p.audits ++ statements_of payload))
  unfolding handle_command
  handle_command-audits p [] h = (_, (refl, sym (append-nil (sqls p.audits))))
  handle_command-audits p (c ∷ rest) h = elim (Bool-cases (c == 0x0e)) [
    | inl e ↦
        let second : (c == 0x02) ≡ false = ground (arith, e) in
        let third : (c == 0x03) ≡ false = ground (arith, e) in
        rw (h, e, second, third) (_, (refl, sym (append-nil (sqls p.audits))))
    | inr e ↦ elim (Bool-cases (c == 0x02)) [
      | inl f ↦ rw (h, e, f) (_, (refl, handle_init_db-audits p rest))
      | inr f ↦ elim (Bool-cases (c == 0x03)) [
        | inl g ↦ rw (h, e, f, g) (_, (refl, handle_query-audits p rest))
        | inr g ↦ elim (Bool-cases (c == 0x16 || (c == 0x17 || c == 0x19))) [
          | inl k ↦ rw (h, e, f, g, k) (_, (refl, sym (append-nil (sqls p.audits))))
          | inr k ↦ rw (h, e, f, g, k) (_, (refl, sym (append-nil (sqls p.audits))))
        ]
      ]
    ]
  ]

  handle_command-quits :
      (p : Proxy too_large_text target) (payload : Bytes)
      → is_quit payload ≡ true
      → handle_command too_large_text target session_id p payload ≡ none
  unfolding handle_command
  handle_command-quits p [] h = absurd (cc h)
  handle_command-quits p (c ∷ rest) h = rw h refl

  -- Command packets as a client sends them.
  abbrev pub command_packets : List Bytes → Bytes
  command_packets [] = []
  command_packets (payload ∷ rest) = sent (write_mysql_packet 0 payload) ++ command_packets rest

  abbrev pub FitsPacket : Bytes → Type 0
  FitsPacket payload = length payload ≤ mysql_max_packet_size

  read_command :
      (payload rest : Bytes)
      → FitsPacket payload
      → read_mysql_packet (sent (write_mysql_packet 0 payload) ++ rest) ≡ got (payload, 0) rest
  read_command payload rest h =
      let (packet, written, back) = read_mysql_packet-write_mysql_packet 0 payload rest h in
      rw written back

  -- The commands of a client, of any kinds and in any order, leave one audit entry for each statement
  -- that they bring to the target, the text of a query or the USE of a change of database, in the order
  -- in which they arrive, whatever the target answers and whether a statement fails or not. The other
  -- commands leave none. The loop ends at the first COM_QUIT, or when the client sends no more.
  pub command_loop-audits :
      (fuel : ℕ) (p : Proxy too_large_text target) (payloads : List Bytes)
      → All FitsPacket payloads
      → length payloads < fuel
      → (sqls ((command_loop fuel p (command_packets payloads)).0.audits)
          ≡ sqls p.audits ++ statements_until_quit payloads)
        × ((command_loop fuel p (command_packets payloads)).1 ≡ end_of payloads)
  unfolding command_loop
  command_loop-audits zero p payloads f h = absurd (omega (arith, h))
  command_loop-audits (suc fuel) p [] f h = (
    unfold read_mysql_packet read_full in sym (append-nil (sqls p.audits)),
    unfold read_mysql_packet read_full in refl,
  )
  command_loop-audits (suc fuel) p (payload ∷ rest) (g, f) h = elim (Bool-cases (is_quit payload)) [
    | inl q ↦
        rw
          (
            read_command payload (command_packets rest) g,
            handle_command-quits p payload q,
            q,
            command_loop,
          )
          (sym (append-nil (sqls p.audits)), refl)
    | inr q ↦
        let (after, (handled, left)) = handle_command-audits p payload q in
        let (audited, ended) = command_loop-audits fuel after rest f (omega (arith, h)) in
        let step : command_loop (suc fuel) p (command_packets (payload ∷ rest))
            ≡ command_loop fuel after (command_packets rest) =
          rw (read_command payload (command_packets rest) g, handled, command_loop) refl in
        rw (step, q)
          (
            audited
                ∙ (rw left (
                    append_assoc (sqls p.audits) (statements_of payload)
                      (statements_until_quit rest))),
            ended,
          )
  ]
