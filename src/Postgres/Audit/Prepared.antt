-- ===== src/Postgres/Audit/Prepared.antt =====
-- The SQL text of a portal is that of the statement bound to it.
use turjmp.Prelude.{
  ℕ, ◌≡◌, refl, ap, ◌∙◌, inl, inr, Bool, true, false, not, ◌&&◌, Option, List, [], ◌∷◌, arith, ◌==◌,
  Bool-cases, null, all, Text, text_eq, text_eq→eq, text_eq_refl,
}
use turjmp.Postgres.{ℤ, FrontendMessage, BackendMessage}
use turjmp.Postgres.Audit.{
  Texts, lookup, delete, insert, PostgresAuditState, begin_locked, portal_query, observe_frontend,
  observe_backend, finish_next, flush_pending,
}
use turjmp.Postgres.Audit.Order.{Observed, observe, observe_all}

lookup-delete_other :
    (k key : Text) (m : Texts) → text_eq key k ≡ false → lookup k (delete key m) ≡ lookup k m
unfolding lookup delete
lookup-delete_other k key [] h = refl
lookup-delete_other k key ((j, v) ∷ m) h = elim (Bool-cases (text_eq j key)) [
  | inl e ↦ ground (arith, e, h, text_eq→eq j key e, lookup-delete_other k key m h)
  | inr e ↦ ground (arith, e, lookup-delete_other k key m h)
]

lookup-insert : (k v : Text) (m : Texts) → lookup k (insert k v m) ≡ v
unfolding lookup insert
lookup-insert k v m = rw (text_eq_refl k) refl

lookup-insert_other :
    (k key v : Text) (m : Texts) → text_eq key k ≡ false → lookup k (insert key v m) ≡ lookup k m
unfolding lookup insert
lookup-insert_other k key v m h = rw (h, lookup-delete_other k key m h) refl

-- A message that leaves the portal of this name as it is: it does not bind it again or close it.
unfoldable pub spares : Text → Observed → Bool
spares portal (Observed.frontend now (FrontendMessage.bind p statement)) = not (text_eq p portal)
spares portal (Observed.frontend now (FrontendMessage.close kind p)) =
    not (kind == b'P' && text_eq p portal)
spares portal (Observed.frontend now (FrontendMessage.query q)) = true
spares portal (Observed.frontend now (FrontendMessage.parse name q)) = true
spares portal (Observed.frontend now (FrontendMessage.execute p)) = true
spares portal (Observed.frontend now FrontendMessage.other_frontend) = true
spares portal (Observed.backend now m) = true

finish_next-portals :
    (s : PostgresAuditState) (now : ℕ) (rows : ℤ) (error : Option Text)
    → (finish_next s now rows error).portals ≡ s.portals
unfolding finish_next
finish_next-portals s now rows error =
    elim s.pending
      as (λ l. (finish_next (record s { pending = l }) now rows error).portals ≡ s.portals) [
        | [] ↦ refl
        | e ∷ es ↦ refl
      ]

observe-portal :
    (u portal : Text) (s : PostgresAuditState) (m : Observed)
    → spares portal m ≡ true
    → lookup portal (observe u s m).portals ≡ lookup portal s.portals
unfolding observe spares observe_frontend observe_backend begin_locked flush_pending
observe-portal u portal s (Observed.frontend now (FrontendMessage.query q)) h = refl
observe-portal u portal s (Observed.frontend now (FrontendMessage.parse name q)) h = refl
observe-portal u portal s (Observed.frontend now (FrontendMessage.bind p statement)) h =
    ground (arith, h, lookup-insert_other portal p (lookup statement s.prepared) s.portals)
observe-portal u portal s (Observed.frontend now (FrontendMessage.execute p)) h = ground arith
observe-portal u portal s (Observed.frontend now (FrontendMessage.close kind p)) h =
    ground (arith, h, lookup-delete_other portal p s.portals)
observe-portal u portal s (Observed.frontend now FrontendMessage.other_frontend) h = refl
observe-portal u portal s (Observed.backend now (BackendMessage.command_complete tag)) h =
    ap (lookup portal) (finish_next-portals s now _ _)
observe-portal u portal s (Observed.backend now (BackendMessage.error_response e)) h =
    ap (lookup portal) (finish_next-portals s now _ _)
observe-portal u portal s (Observed.backend now BackendMessage.ready_for_query) h = refl
observe-portal u portal s (Observed.backend now BackendMessage.other_backend) h = refl

observe_all-portal :
    (u portal : Text) (s : PostgresAuditState) (trace : List Observed)
    → all (spares portal) trace ≡ true
    → lookup portal (observe_all u s trace).portals ≡ lookup portal s.portals
unfolding observe_all
observe_all-portal u portal s [] h = refl
observe_all-portal u portal s (m ∷ ms) h =
    observe_all-portal u portal (observe u s m) ms (ground (arith, h))
    ∙ observe-portal u portal s m (ground (arith, h))

execute-known :
    (portal q : Text) (t : PostgresAuditState) (now : ℕ)
    → null q ≡ false
    → lookup portal t.portals ≡ q
    → observe_frontend t now (FrontendMessage.execute portal) ≡ begin_locked t now q
unfolding observe_frontend portal_query
execute-known portal q t now some_text e = ground (arith, some_text, e)

bind-portal :
    (statement portal q : Text) (s : PostgresAuditState) (now : ℕ)
    → null q ≡ false
    → lookup statement s.prepared ≡ q
    → lookup portal (observe_frontend s now (FrontendMessage.bind portal statement)).portals ≡ q
unfolding observe_frontend
bind-portal statement portal q s now some_text e =
    ground (arith, some_text, e, lookup-insert portal q s.portals)

-- A statement that has been parsed, is bound to a portal and is executed from it is queued under its
-- own SQL text, whatever else passes between the binding and the execution, as long as nothing binds
-- the portal again or closes it.
pub execute-bound :
    (u statement portal q : Text) (s before : PostgresAuditState) (now now' : ℕ)
    (trace : List Observed)
    → null q ≡ false
    → lookup statement s.prepared ≡ q
    → all (spares portal) trace ≡ true
    → before ≡ observe_all u (observe_frontend s now (FrontendMessage.bind portal statement)) trace
    → observe_frontend before now' (FrontendMessage.execute portal) ≡ begin_locked before now' q
execute-bound u statement portal q s before now now' trace some_text e quiet after =
    let bound = observe_frontend s now (FrontendMessage.bind portal statement) in
    execute-known portal q before now' some_text (
      ap (λ t. lookup portal t.portals) after
      ∙ observe_all-portal u portal bound trace quiet
      ∙ bind-portal statement portal q s now some_text e)
