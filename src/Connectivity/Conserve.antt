-- ===== src/Connectivity/Conserve.antt =====
-- What the broker received of the ring and of the file on the card.
use mathlib.Core.Path.{subst}
-- The accepted payloads, read and joined.
use power_monitoring.Base.{
  ℕ, zero, suc, ◌≡◌, refl, sym, ap, ◌∙◌, ◌⊎◌, inl, inr, Bool, true, false, not, List, [], ◌∷◌, ◌++◌,
  arith, ◌==◌, if◌then◌else◌, ==→eq, length, drop, append_nil, append_assoc, if_cases,
}
use power_monitoring.Logger.{Entry, log_pop_batch}
use power_monitoring.Logger.Queue.{encode_all, Holds}
use power_monitoring.Logger.Contents.{
  AllByte, AllByte-left, AllByte-right, AllByte-encode_all, log_pop_batch-Taken,
}
use power_monitoring.Connectivity.Base64.{base64_encode}
use power_monitoring.Connectivity.Decode.{decode, decode-base64_encode}
use power_monitoring.Connectivity.Publish.{
  batch_size, Uplink, Answers, offer, send_pending, send_batch, drain, IsReader,
}

abbrev pub received : List (List ℕ × Bool) → List ℕ
received [] = []
received ((text, ok) ∷ more) = (if ok then decode text else []) ++ received more

received-append :
    (xs : List (List ℕ × Bool)) (text : List ℕ) (ok : Bool)
    → received (xs ++ (text, ok) ∷ []) ≡ received xs ++ (if ok then decode text else [])
received-append [] text ok = append_nil (if ok then decode text else [])
received-append ((t, b) ∷ xs) text ok =
    ap (λ r. (if b then decode t else []) ++ r) (received-append xs text ok)
    ∙ append_assoc (if b then decode t else []) (received xs) (if ok then decode text else [])

-- The broker receives the bytes that it accepts.
offer-received :
    (a : Answers) (bytes : List ℕ) (u : Uplink)
    → AllByte bytes
    → received (offer a bytes u).1.offered
      ≡ received u.offered ++ (if (offer a bytes u).0 then bytes else [])
unfolding offer
offer-received a bytes u h =
    let ok = a.accepts (length u.offered) in
    received-append u.offered (base64_encode bytes) ok
    ∙ ap (λ t. received u.offered ++ (if ok then t else [])) (decode-base64_encode bytes h)

-- A step that sends a part of the pending bytes and of the ring's.
pub record Moved (size : ℕ) (es : List Entry) (u u' : Uplink) : Type 0 where
  pub rest : List Entry
  pub sent : List ℕ
  pub held : Holds size rest u'.logger
  pub conserved : sent ++ (u'.pending ++ encode_all rest) ≡ u.pending ++ encode_all es
  pub told : received u'.offered ≡ received u.offered ++ sent
  pub same_file : u'.overflow ≡ u.overflow

-- The step goes on only with nothing pending.
abbrev pub Stage : ℕ → List Entry → Uplink → Bool × Uplink → Type 0
Stage size es u (go, u') = Moved size es u u' × ((go ≡ false) ⊎ (u'.pending ≡ []))

nothing_left : (xs : List ℕ) → (length xs == 0) ≡ true → xs ≡ []
nothing_left [] h = refl
nothing_left (x ∷ xs) h = absurd (ground (arith, h))

pub send_pending-Stage :
    (a : Answers) (size : ℕ) (es : List Entry) (u : Uplink)
    → Holds size es u.logger
    → AllByte u.pending
    → Stage size es u (send_pending a u)
unfolding send_pending offer
send_pending-Stage a size es u h b =
    let ok = a.accepts (length u.offered) in
    let u' : Uplink = record u { offered = u.offered ++ (base64_encode u.pending, ok) ∷ [] } in
    let told = offer-received a u.pending u b in
    if_cases (Stage size es u) (length u.pending == 0) (true, u)
      (if ok then (true, record u' { pending = [] }) else (false, u'))
      (λ e. (
        record {
          rest = es;
          sent = [];
          held = h;
          conserved = refl;
          told = sym (append_nil (received u.offered));
          same_file = refl;
        },
        inr (nothing_left u.pending e),
      ))
      (λ _.
        if_cases (Stage size es u) ok (true, record u' { pending = [] }) (false, u')
          (λ e. (
            record {
              rest = es;
              sent = u.pending;
              held = h;
              conserved = refl;
              told = told ∙ ap (λ t. received u.offered ++ (if t then u.pending else [])) e;
              same_file = refl;
            },
            inr refl,
          ))
          (λ e. (
            record {
              rest = es;
              sent = [];
              held = h;
              conserved = refl;
              told = told ∙ ap (λ t. received u.offered ++ (if t then u.pending else [])) e;
              same_file = refl;
            },
            inl refl,
          )))

pub send_batch-Stage :
    (a : Answers) (size : ℕ) (es : List Entry) (u : Uplink)
    → Holds size es u.logger
    → u.pending ≡ []
    → Stage size es u (send_batch a size u)
unfolding send_batch offer
send_batch-Stage a size es u h e =
    let batch = (log_pop_batch size batch_size u.logger).0 in
    let l = (log_pop_batch size batch_size u.logger).1 in
    let popped : Uplink = record u { logger = l } in
    let taken = log_pop_batch-Taken size batch_size es u.logger h in
    let ok = a.accepts (length u.offered) in
    let u' : Uplink = record popped { offered = u.offered ++ (base64_encode batch, ok) ∷ [] } in
    let all_of : u.pending ++ encode_all es ≡ encode_all es = ap (λ t. t ++ encode_all es) e in
    let bytes =
      AllByte-left batch (encode_all taken.rest)
        (subst AllByte (sym taken.split) (AllByte-encode_all es)) in
    let told = offer-received a batch popped bytes in
    if_cases (Stage size es u) (length batch == 0) (true, popped)
      (if ok then (true, u') else (false, record u' { pending = batch }))
      (λ n. (
        record {
          rest = taken.rest;
          sent = [];
          held = taken.held;
          conserved =
              ap (λ t. u.pending ++ t)
                (ap (λ t. t ++ encode_all taken.rest) (sym (nothing_left batch n)) ∙ taken.split);
          told = sym (append_nil (received u.offered));
          same_file = refl;
        },
        inr e,
      ))
      (λ _.
        if_cases (Stage size es u) ok (true, u') (false, record u' { pending = batch })
          (λ y. (
            record {
              rest = taken.rest;
              sent = batch;
              held = taken.held;
              conserved =
                  ap (λ t. batch ++ (t ++ encode_all taken.rest)) e ∙ taken.split ∙ sym all_of;
              told = told ∙ ap (λ t. received u.offered ++ (if t then batch else [])) y;
              same_file = refl;
            },
            inr e,
          ))
          (λ n. (
            record {
              rest = taken.rest;
              sent = [];
              held = taken.held;
              conserved = taken.split ∙ sym all_of;
              told = told ∙ ap (λ t. received u.offered ++ (if t then batch else [])) n;
              same_file = refl;
            },
            inl refl,
          )))

to_false : (b : Bool) → not b ≡ true → b ≡ false
to_false false h = refl
to_false true h = absurd (ground (arith, h))

to_true : (b : Bool) → not b ≡ false → b ≡ true
to_true true h = refl
to_true false h = absurd (ground (arith, h))

-- What the loop over the file sends: all that was left of it, if it ends by itself.
pub record Drained (rest : List ℕ) (u : Uplink) (r : Bool × Uplink) : Type 0 where
  pub got : List ℕ
  pub told : received r.1.offered ≡ received u.offered ++ got
  pub same_logger : r.1.logger ≡ u.logger
  pub same_pending : r.1.pending ≡ u.pending
  pub same_file : r.1.overflow ≡ u.overflow
  pub complete : (r.0 ≡ false) ⊎ (got ≡ rest)

stopped : (rest : List ℕ) (u : Uplink) → Drained rest u (false, u)
stopped rest u = record {
  got = [];
  told = sym (append_nil (received u.offered));
  same_logger = refl;
  same_pending = refl;
  same_file = refl;
  complete = inl refl;
}

module _ (a : Answers) (reader : IsReader a.read) where
  pub drain-Drained :
      (fuel : ℕ) (rest : List ℕ) (u : Uplink) → AllByte rest → Drained rest u (drain a fuel rest u)
  unfolding drain offer
  drain-Drained zero rest u h = stopped rest u
  drain-Drained (suc fuel) rest u h =
      let chunk = a.read batch_size rest in
      let left = drop (length chunk) rest in
      let ok = a.accepts (length u.offered) in
      let u' : Uplink = record u { offered = u.offered ++ (base64_encode chunk, ok) ∷ [] } in
      let whole = subst AllByte (sym (reader.piece batch_size rest)) h in
      let told = offer-received a chunk u (AllByte-left chunk left whole) in
      let next = drain-Drained fuel left u' (AllByte-right chunk left whole) in
      let r = drain a fuel left u' in
      if_cases (Drained rest u) (length chunk == 0) (true, u) (if not ok then (false, u') else r)
        (λ e. record {
          got = [];
          told = sym (append_nil (received u.offered));
          same_logger = refl;
          same_pending = refl;
          same_file = refl;
          complete =
              inr (sym (reader.at_end batch_size rest (omega arith) (==→eq (length chunk) 0 e)));
        })
        (λ _.
          if_cases (Drained rest u) (not ok) (false, u') r
            (λ n. record {
              got = [];
              told =
                  told ∙ ap (λ t. received u.offered ++ (if t then chunk else [])) (to_false ok n);
              same_logger = refl;
              same_pending = refl;
              same_file = refl;
              complete = inl refl;
            })
            (λ y. record {
              got = chunk ++ next.got;
              told =
                  next.told
                  ∙ ap (λ t. t ++ next.got)
                      (told
                        ∙ ap (λ t. received u.offered ++ (if t then chunk else [])) (to_true ok y))
                  ∙ sym (append_assoc (received u.offered) chunk next.got);
              same_logger = next.same_logger;
              same_pending = next.same_pending;
              same_file = next.same_file;
              complete = elim next.complete [
                | inl f ↦ inl f
                | inr e ↦ inr (ap (λ t. chunk ++ t) e ∙ reader.piece batch_size rest)
              ];
            }))
