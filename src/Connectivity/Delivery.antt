-- ===== src/Connectivity/Delivery.antt =====
-- `publish_log_batch` as a whole: nothing that is logged is lost when the broker refuses it.
use mathlib.Core.Path.{subst}
-- What a call sends of the ring and of the file, and what it keeps.
use power_monitoring.Logger.Contents.{AllByte}
use power_monitoring.Base.{
  ℕ, suc, ◌≡◌, refl, sym, ap, ◌∙◌, ◌⊎◌, inl, inr, Bool, not, Option, none, some, List, [], ◌++◌,
  arith, if◌then◌else◌, length, append_nil, append_assoc, if_cases,
}
use power_monitoring.Logger.{Entry}
use power_monitoring.Logger.Queue.{encode_all, Holds}
use power_monitoring.Connectivity.Publish.{
  Uplink, Answers, send_pending, send_batch, drain, drain_file, drain_overflow, publish_log_batch,
  IsReader,
}
use power_monitoring.Connectivity.Conserve.{
  received, Moved, send_pending-Stage, send_batch-Stage, drain-Drained,
}

pub record Conserved (size : ℕ) (es : List Entry) (u u' : Uplink) : Type 0 where
  pub rest : List Entry
  pub from_ring : List ℕ
  pub from_file : List ℕ
  pub held : Holds size rest u'.logger
  pub conserved : from_ring ++ (u'.pending ++ encode_all rest) ≡ u.pending ++ encode_all es
  pub told : received u'.offered ≡ received u.offered ++ (from_ring ++ from_file)
  pub file_kept :
      (u'.overflow ≡ u.overflow) ⊎ ((u'.overflow ≡ none) × (u.overflow ≡ some from_file))

nothing-Conserved :
    (size : ℕ) (es : List Entry) (u : Uplink) → Holds size es u.logger → Conserved size es u u
nothing-Conserved size es u h = record {
  rest = es;
  from_ring = [];
  from_file = [];
  held = h;
  conserved = refl;
  told = sym (append_nil (received u.offered));
  file_kept = inl refl;
}

Moved-Conserved :
    (size : ℕ) (es : List Entry) (u u' : Uplink) → Moved size es u u' → Conserved size es u u'
Moved-Conserved size es u u' m = record {
  rest = m.rest;
  from_ring = m.sent;
  from_file = [];
  held = m.held;
  conserved = m.conserved;
  told = m.told ∙ ap (λ t. received u.offered ++ t) (sym (append_nil m.sent));
  file_kept = inl m.same_file;
}

Moved-Moved :
    (size : ℕ) (es : List Entry) (u u1 u2 : Uplink) (m : Moved size es u u1)
    → Moved size m.rest u1 u2
    → Moved size es u u2
Moved-Moved size es u u1 u2 m n = record {
  rest = n.rest;
  sent = m.sent ++ n.sent;
  held = n.held;
  conserved =
      sym (append_assoc m.sent n.sent (u2.pending ++ encode_all n.rest))
      ∙ ap (λ t. m.sent ++ t) n.conserved
      ∙ m.conserved;
  told =
      n.told ∙ ap (λ t. t ++ n.sent) m.told ∙ sym (append_assoc (received u.offered) m.sent n.sent);
  same_file = n.same_file ∙ m.same_file;
}

-- The bytes of the file, if there is one.
abbrev pub file_bytes : Option (List ℕ) → List ℕ
file_bytes none = []
file_bytes (some bytes) = bytes

module _ (a : Answers) (reader : IsReader a.read) (size : ℕ) where
  drain_file-Conserved :
      (es : List Entry) (u u2 : Uplink) (file : Option (List ℕ))
      → AllByte (file_bytes file)
      → Moved size es u u2
      → file ≡ u.overflow
      → Conserved size es u (drain_file a file u2)
  unfolding drain_file
  drain_file-Conserved es u u2 none b m e = Moved-Conserved size es u u2 m
  drain_file-Conserved es u u2 (some bytes) b m e =
      let d = drain-Drained a reader (suc (length bytes)) bytes u2 b in
      let r = drain a (suc (length bytes)) bytes u2 in
      let u' = r.1 in
      let sent =
        d.told
        ∙ ap (λ t. t ++ d.got) m.told
        ∙ sym (append_assoc (received u.offered) m.sent d.got) in
      let held = subst (Holds size m.rest) (sym d.same_logger) m.held in
      let same = ap (λ t. m.sent ++ (t ++ encode_all m.rest)) d.same_pending ∙ m.conserved in
      if_cases (Conserved size es u) (not a.opens) u2
        (if r.0 then record u' { overflow = none } else u') (λ _. Moved-Conserved size es u u2 m)
        (λ _.
          if_cases (Conserved size es u) r.0 (record u' { overflow = none }) u'
            (λ y. record {
              rest = m.rest;
              from_ring = m.sent;
              from_file = d.got;
              held = held;
              conserved = same;
              told = sent;
              file_kept = inr (
                refl,
                elim d.complete [
                  | inl n ↦ absurd (ground (arith, y, n))
                  | inr all ↦ sym e ∙ ap some (sym all)
                ],
              );
            })
            (λ _. record {
              rest = m.rest;
              from_ring = m.sent;
              from_file = d.got;
              held = held;
              conserved = same;
              told = sent;
              file_kept = inl (d.same_file ∙ m.same_file);
            }))

  -- For reads without faults, a ring that holds entries, and bytes below 256: whatever the broker
  -- answers to each payload, the bytes of the ring and of the pending batch that it accepts, read from
  -- base64, are the first of those that there were, and the others are still pending or in the ring,
  -- in order; and the overflow file stays whole, or is removed with all its bytes accepted.
  pub publish_log_batch-conserves :
      (configured connected : Bool) (es : List Entry) (u : Uplink)
      → Holds size es u.logger
      → AllByte u.pending
      → AllByte (file_bytes u.overflow)
      → Conserved size es u (publish_log_batch a size configured connected u)
  unfolding publish_log_batch drain_overflow
  publish_log_batch-conserves configured connected es u h b f =
      let (sent, u1) = send_pending a u in
      let (popped, u2) = send_batch a size u1 in
      let (m, go) = send_pending-Stage a size es u h b in
      if_cases (Conserved size es u) (not configured) u _ (λ _. nothing-Conserved size es u h)
        (λ _.
          if_cases (Conserved size es u) (not connected) u _ (λ _. nothing-Conserved size es u h)
            (λ _.
              if_cases (Conserved size es u) (not sent) u1 _ (λ _. Moved-Conserved size es u u1 m)
                (λ s. elim go [
                  | inl stop ↦ absurd (ground (arith, s, stop))
                  | inr empty ↦
                      let (n, _) = send_batch-Stage a size m.rest u1 m.held empty in
                      let two = Moved-Moved size es u u1 u2 m n in
                      if_cases (Conserved size es u) (not popped) u2 _
                        (λ _. Moved-Conserved size es u u2 two)
                        (λ _.
                          drain_file-Conserved es u u2 u2.overflow
                            (subst (λ x. AllByte (file_bytes x)) (sym two.same_file) f) two
                            two.same_file)
                ])))
