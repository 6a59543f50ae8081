-- ===== src/Payments/Signed.antt =====
-- Which charges the webhook of backend/internal/paystack records as paid, with the client that
-- backend/cmd/server/main.go gives it.
use geo_querry.Prelude.{
  String, ◌≡◌, ◌↔◌, refl, ap, sym, ◌∙◌, inl, inr, Bool, true, false, Option, none, some, [], ◌∷◌,
  str_eq, ◌==◌, arith, eq_iff, Bool-cases,
}
use geo_querry.Prelude.Int.{ℤ}
use geo_querry.Prelude.Outcome.{Outcome, failure, success}
use geo_querry.Payments.{Reply, unreachable, replied}
use geo_querry.Payments.Paystack.{
  Client, Request, lookup, Event, Formats, PaystackError, lookup_url, on_reply, success_or_fail,
  verify_transaction, verify_signature, charge, Response, answer, log_charge, handle_event, webhook,
}

-- Paystack itself says that the reference is paid.
pub record IsConfirmed (formats : Formats) (c : Client) (net : Request → Reply) (reference : String)
    : Type 0 where
  pub well_formed : formats.well_formed (lookup_url c reference) ≡ true
  pub body : String
  pub answered : net (lookup (lookup_url c reference) c.secret_key) ≡ replied 200 body
  pub says_success : formats.status_of body ≡ some "success"

-- The body is signed under the secret and holds this event.
pub record IsSigned (formats : Formats) (secret_key signature raw reference : String) (amount : ℤ)
    : Type 0 where
  pub digest : String
  pub decodes : formats.unhex signature ≡ some digest
  pub signed : digest ≡ formats.hmac secret_key raw
  pub ev : Event
  pub parsed : formats.event_of raw ≡ some ev
  pub is_success : ev.event ≡ "charge.success"
  pub same_reference : ev.reference ≡ reference
  pub same_amount : ev.amount ≡ amount

module _ (formats : Formats) where
  on_reply-success :
      (r : Reply)
      → on_reply (λ body. success_or_fail (formats.status_of body)) r ≡ success true
      → (body : String) × (r ≡ replied 200 body) × (formats.status_of body ≡ some "success")
  on_reply-success unreachable = λ h. absurd (cc)
  on_reply-success (replied status body) = elim (Bool-cases (status == 200)) [
    | inr bad ↦ rw bad (λ h. absurd (cc))
    | inl fine ↦
        rw fine (λ h. (body, rw (the_status fine) refl, says (formats.status_of body) refl h))
  ]
    where
      the_status : (status == 200) ≡ true → status ≡ 200
      the_status h = ground arith

      says :
          (o : Option String)
          → formats.status_of body ≡ o
          → success_or_fail o ≡ success true
          → formats.status_of body ≡ some "success"
      says none e h = absurd (cc)
      says (some s) e h = let same = (eq_iff s "success").0 (cc) in cc

  verify_transaction_iff :
      (c : Client) (net : Request → Reply) (reference : String)
      → (verify_transaction formats c net reference ≡ success true)
        ↔ IsConfirmed formats c net reference
  unfolding verify_transaction
  verify_transaction_iff c net reference = (sound, complete)
    where
      sound :
          verify_transaction formats c net reference ≡ success true
          → IsConfirmed formats c net reference
      sound = elim (Bool-cases (formats.well_formed (lookup_url c reference))) [
        | inr bad ↦ rw (verify_transaction, bad) (λ h. absurd (cc))
        | inl fine ↦
            rw (verify_transaction, fine)
              (λ h.
                let (body, a, s) =
                  on_reply-success (net (lookup (lookup_url c reference) c.secret_key)) h in
                record { well_formed = fine; body = body; answered = a; says_success = s })
      ]

      complete :
          IsConfirmed formats c net reference
          → verify_transaction formats c net reference ≡ success true
      complete k = rw (k.well_formed, k.answered, k.says_success) refl

  verify_signature_iff :
      (secret_key signature raw digest : String)
      → formats.unhex signature ≡ some digest
      → (verify_signature formats raw secret_key signature ≡ true)
        ↔ (digest ≡ formats.hmac secret_key raw)
  unfolding verify_signature
  verify_signature_iff secret_key signature raw digest d =
      rw (verify_signature, d) (eq_iff digest (formats.hmac secret_key raw))

  signed_digest :
      (secret_key signature raw : String)
      → verify_signature formats raw secret_key signature ≡ true
      → (digest : String) × (formats.unhex signature ≡ some digest)
        × (digest ≡ formats.hmac secret_key raw)
  unfolding verify_signature
  signed_digest secret_key signature raw = decoded (formats.unhex signature) refl
    where
      decoded :
          (o : Option String)
          → formats.unhex signature ≡ o
          → elim o [ none ↦ false | some got ↦ str_eq got (formats.hmac secret_key raw) ] ≡ true
          → (digest : String) × (formats.unhex signature ≡ some digest)
            × (digest ≡ formats.hmac secret_key raw)
      decoded none e h = absurd (cc)
      decoded (some got) e h = (got, e, (eq_iff got (formats.hmac secret_key raw)).0 h)

  module _ (c : Client) (net : Request → Reply) (secret_key signature raw reference : String)
      (amount : ℤ) where
    parsed_charge :
        (ev : Event)
        → handle_event (some (verify_transaction formats c net)) (some ev)
          ≡ answer 200 (charge reference amount true ∷ [])
        → (ev.event ≡ "charge.success")
          × (ev.reference ≡ reference)
          × (ev.amount ≡ amount)
          × (verify_transaction formats c net reference ≡ success true)
    parsed_charge ev = elim (Bool-cases (str_eq ev.event "charge.success")) [
      | inr e ↦ rw e (λ h. absurd (let logs = ap (λ (r : Response). r.log) h in cc))
      | inl e ↦ rw e (
          logged (verify_transaction formats c net ev.reference) refl
            ((eq_iff ev.event "charge.success").0 e))
    ]
      where
        logged :
            (o : Outcome PaystackError Bool)
            → verify_transaction formats c net ev.reference ≡ o
            → ev.event ≡ "charge.success"
            → log_charge ev o ≡ answer 200 (charge reference amount true ∷ [])
            → (ev.event ≡ "charge.success")
              × (ev.reference ≡ reference)
              × (ev.amount ≡ amount)
              × (verify_transaction formats c net reference ≡ success true)
        logged (failure x) v e h = absurd (let logs = ap (λ (r : Response). r.log) h in cc)
        logged (success paid) v e h =
            let logs = ap (λ (r : Response). r.log) h in
            let same : ev.reference ≡ reference = cc in
            let is_paid : paid ≡ true = cc in
            (
              e,
              same,
              cc,
              ap (verify_transaction formats c net) (sym same)
                  ∙ v
                  ∙ ap (λ (b : Bool). success b) is_paid,
            )

    handled :
        (o : Option Event)
        → formats.event_of raw ≡ o
        → verify_signature formats raw secret_key signature ≡ true
        → handle_event (some (verify_transaction formats c net)) o
          ≡ answer 200 (charge reference amount true ∷ [])
        → IsSigned formats secret_key signature raw reference amount
          × IsConfirmed formats c net reference
    handled none e s h = absurd (let logs = ap (λ (r : Response). r.log) h in cc)
    handled (some ev) e s h =
        let (a, b, x, v) = parsed_charge ev h in
        let (digest, decodes, signed) = signed_digest secret_key signature raw s in
        (
          record {
            digest = digest;
            decodes = decodes;
            signed = signed;
            ev = ev;
            parsed = e;
            is_success = a;
            same_reference = b;
            same_amount = x;
          },
          (verify_transaction_iff c net reference).0 v,
        )

    webhook_sound :
        webhook formats secret_key (some (verify_transaction formats c net)) signature (some raw)
          ≡ answer 200 (charge reference amount true ∷ [])
        → IsSigned formats secret_key signature raw reference amount
          × IsConfirmed formats c net reference
    unfolding webhook
    webhook_sound = elim (Bool-cases (verify_signature formats raw secret_key signature)) [
      | inr e ↦ rw (webhook, e) (λ h. absurd (let logs = ap (λ (r : Response). r.log) h in cc))
      | inl e ↦ rw (webhook, e) (handled (formats.event_of raw) refl e)
    ]

    webhook_complete :
        IsSigned formats secret_key signature raw reference amount
        → IsConfirmed formats c net reference
        → webhook formats secret_key (some (verify_transaction formats c net)) signature (some raw)
          ≡ answer 200 (charge reference amount true ∷ [])
    unfolding webhook
    webhook_complete s k =
        rw
          (
            webhook,
            (verify_signature_iff secret_key signature raw s.digest s.decodes).1 s.signed,
            s.parsed,
            (eq_iff _ _).1 s.is_success,
            s.same_reference,
            (verify_transaction_iff c net reference).1 k,
            s.same_amount,
          )
          refl

    -- With the client's VerifyTransaction, the webhook records a charge as paid exactly when the
    -- raw body is signed by HMAC-SHA512 under the secret key and holds a charge.success event with
    -- this reference and amount, and Paystack answers 200 with the status success for the
    -- reference.
    pub webhook_iff :
        (webhook formats secret_key (some (verify_transaction formats c net)) signature (some raw)
          ≡ answer 200 (charge reference amount true ∷ []))
        ↔ (IsSigned formats secret_key signature raw reference amount
            × IsConfirmed formats c net reference)
    webhook_iff = (webhook_sound, λ (s, k). webhook_complete s k)
