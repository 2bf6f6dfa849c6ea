-- ===== src/Connectivity/Emptied.antt =====
-- A call with a willing broker leaves nothing pending and no file.
use mathlib.Core.Path.{subst}
use power_monitoring.Base.{
  ℕ, zero, suc, ◌<◌, ◌≡◌, refl, sym, ap, ◌∙◌, inl, inr, Bool, true, false, not, Option, none, some,
  List, [], ◌∷◌, ◌++◌, arith, ◌==◌, if◌then◌else◌, length, drop, length-append, if_keeps, if_cases,
}
use power_monitoring.Logger.{Entry, log_pop_batch}
use power_monitoring.Logger.Queue.{Holds}
use power_monitoring.Logger.Contents.{AllByte}
use power_monitoring.Connectivity.Base64.{base64_encode}
use power_monitoring.Connectivity.Publish.{
  batch_size, Uplink, Answers, offer, send_pending, send_batch, drain, drain_file, drain_overflow,
  publish_log_batch, IsReader,
}
use power_monitoring.Connectivity.Conserve.{send_pending-Stage, send_batch-Stage, drain-Drained}
use power_monitoring.Connectivity.Delivery.{file_bytes}

module _ (a : Answers) (all : (n : ℕ) → a.accepts n ≡ true) where
  send_pending-goes : (u : Uplink) → (send_pending a u).0 ≡ true
  unfolding send_pending offer
  send_pending-goes u =
      rw (all (length u.offered))
        (if_keeps (λ (r : Bool × Uplink). r.0 ≡ true) (length u.pending == 0) _ _ refl refl)

  send_batch-goes : (size : ℕ) (u : Uplink) → (send_batch a size u).0 ≡ true
  unfolding send_batch offer
  send_batch-goes size u = rw (all (length u.offered)) (
      if_keeps (λ (r : Bool × Uplink). r.0 ≡ true)
        (length (log_pop_batch size batch_size u.logger).0 == 0) _ _ refl refl)

  module _ (reader : IsReader a.read) where
    shorter :
        (rest : List ℕ)
        → (length (a.read batch_size rest) == 0) ≡ false
        → length (drop (length (a.read batch_size rest)) rest) < length rest
    shorter rest e =
        let chunk = a.read batch_size rest in
        ground (
          arith,
          e,
          ap length (reader.piece batch_size rest),
          length-append chunk (drop (length chunk) rest),
        )

    drain-ends :
        (fuel : ℕ) (rest : List ℕ) (u : Uplink)
        → length rest < fuel
        → (drain a fuel rest u).0 ≡ true
    unfolding drain offer
    drain-ends zero rest u h = absurd (omega (arith, h))
    drain-ends (suc fuel) rest u h =
        let chunk = a.read batch_size rest in
        let (ok, u') = offer a chunk u in
        rw (all (length u.offered)) (
          if_cases (λ (r : Bool × Uplink). r.0 ≡ true) (length chunk == 0) (true, u)
            (drain a fuel (drop (length chunk) rest)
              (record u { offered = u.offered ++ (base64_encode chunk, true) ∷ [] }))
            (λ _. refl)
            (λ e. drain-ends fuel (drop (length chunk) rest) _ (omega (arith, h, shorter rest e))))

    drain_file-none :
        (file : Option (List ℕ)) (u : Uplink)
        → a.opens ≡ true
        → u.overflow ≡ file
        → (drain_file a file u).overflow ≡ none
    unfolding drain_file
    drain_file-none none u o e = e
    drain_file-none (some bytes) u o e =
        rw (o, drain-ends (suc (length bytes)) bytes u (omega arith)) refl

    drain_file-pending :
        (file : Option (List ℕ)) (u : Uplink)
        → AllByte (file_bytes file)
        → (drain_file a file u).pending ≡ u.pending
    unfolding drain_file
    drain_file-pending none u f = refl
    drain_file-pending (some bytes) u f =
        let d = drain-Drained a reader (suc (length bytes)) bytes u f in
        let r = drain a (suc (length bytes)) bytes u in
        if_keeps (λ (v : Uplink). v.pending ≡ u.pending) (not a.opens) u
          (if r.0 then record r.1 { overflow = none } else r.1) refl
          (if_keeps (λ (v : Uplink). v.pending ≡ u.pending) r.0 (record r.1 { overflow = none }) r.1
            d.same_pending d.same_pending)

    -- With settings and a connection, for a broker that accepts every payload, a file that opens and
    -- reads without faults, a ring that holds entries, and bytes below 256: after one call nothing is
    -- pending and there is no overflow file.
    pub publish_log_batch-empties :
        (size : ℕ) (es : List Entry) (u : Uplink)
        → a.opens ≡ true
        → Holds size es u.logger
        → AllByte u.pending
        → AllByte (file_bytes u.overflow)
        → let u' = publish_log_batch a size true true u in (u'.pending ≡ []) × (u'.overflow ≡ none)
    unfolding publish_log_batch drain_overflow
    publish_log_batch-empties size es u o h b f =
        let u1 = (send_pending a u).1 in
        let u2 = (send_batch a size u1).1 in
        let (m, go) = send_pending-Stage a size es u h b in
        elim go [
          | inl stop ↦ absurd (ground (arith, stop, send_pending-goes u))
          | inr empty ↦
              let (n, gone) = send_batch-Stage a size m.rest u1 m.held empty in
              elim gone [
                | inl stop ↦ absurd (ground (arith, stop, send_batch-goes size u1))
                | inr clear ↦
                    rw (send_pending-goes u, send_batch-goes size u1)
                      (
                        drain_file-pending u2.overflow u2 (
                              subst (λ x. AllByte (file_bytes x)) (sym (n.same_file ∙ m.same_file))
                                f)
                            ∙ clear,
                        drain_file-none u2.overflow u2 o refl,
                      )
              ]
        ]
