-- ===== src/Ota/Verified.antt =====
-- The partition is made bootable only after the image is verified.
use mathlib.Core.Path.{subst}
use power_monitoring.Base.{
  ℕ, suc, ◌≡◌, refl, sym, ap, ◌∙◌, ◌≢◌, inl, inr, Bool, true, false, not, List, [], ◌∷◌, arith, leb,
  ◌==◌, if◌then◌else◌, ==→eq, Bool-cases, Option-cases, length, u32,
}
use power_monitoring.Ota.State.{
  OtaState, idle, checking, downloading, applying, rebooting, failed, Error, timed_out, no_stream,
  write_failed, size_mismatch, hash_mismatch, connection_lost, Call, ota_write, set_boot_partition,
  restart, Ota, Reply, Answers, call, set_state, set_error, cleanup_download, give_up, refuse,
  poll_interval_given, poll_due, to_hex, same_ignoring_case,
}
use power_monitoring.Ota.Client.{
  open_download, announce, accept_reply, check, report_progress, store_chunk, take_chunk, download,
  abort, apply, dispatch, loop_ota_client,
}
use power_monitoring.Ota.Inv.{is_live, IsSound}

-- How often the boot partition was set, and the device restarted.
abbrev pub boots : List Call → ℕ
boots [] = 0
boots (set_boot_partition ∷ cs) = suc (boots cs)
boots (restart ∷ cs) = suc (boots cs)
boots (_ ∷ cs) = boots cs

boots-cleanup_download : (s : Ota) → boots (cleanup_download s).calls ≡ boots s.calls
unfolding cleanup_download
boots-cleanup_download s = ground arith

boots-give_up : (e : Error) (s : Ota) → boots (give_up e s).calls ≡ boots s.calls
unfolding give_up
boots-give_up e s = ground arith

boots-poll_interval_given :
    (pi : ℕ) (s : Ota) → boots (poll_interval_given pi s).calls ≡ boots s.calls
unfolding poll_interval_given
boots-poll_interval_given pi s = ground arith

boots-announce : (r : Reply) (s : Ota) → boots (announce r s).calls ≡ boots s.calls
unfolding announce
boots-announce r s = ground arith

boots-open_download : (env : Answers) (s : Ota) → boots (open_download env s).calls ≡ boots s.calls
unfolding open_download
boots-open_download env s = ground arith

boots-accept_reply :
    (env : Answers) (r : Reply) (s : Ota) → boots (accept_reply env r s).calls ≡ boots s.calls
unfolding accept_reply refuse set_state
boots-accept_reply env r s = ground (
  arith,
  boots-poll_interval_given r.poll_interval_seconds s,
  boots-announce r s,
  boots-open_download env (announce r s),
)

boots-check : (env : Answers) (s : Ota) → boots (check env s).calls ≡ boots s.calls
unfolding check refuse set_state
boots-check env s = elim (Option-cases env.reply) [
  | inl e ↦ ground (arith, e)
  | inr (r, e) ↦ ground (arith, e, boots-accept_reply env r s)
]

boots-report_progress : (s : Ota) → boots (report_progress s).calls ≡ boots s.calls
unfolding report_progress
boots-report_progress s = ground arith

boots-take_chunk : (env : Answers) (s : Ota) → boots (take_chunk env s).calls ≡ boots s.calls
unfolding take_chunk
boots-take_chunk env s =
    let told = report_progress (store_chunk env.chunk s) in
    elim (Bool-cases env.write_ok) [
      | inr bad ↦ rw bad (boots-give_up write_failed (call (ota_write env.chunk) s) ∙ boots-write)
      | inl good ↦ elim (Bool-cases (leb told.expected_size told.total_written)) [
        | inl all ↦ rw (good, all) (boots-applying told ∙ boots-stored)
        | inr more ↦ rw (good, more) boots-stored
      ]
    ]
  where
    boots-write : boots (call (ota_write env.chunk) s).calls ≡ boots s.calls
    boots-write = unfold call in refl

    boots-applying : (t : Ota) → boots (set_state applying t).calls ≡ boots t.calls
    boots-applying t = unfold set_state in refl

    boots-stored : boots (report_progress (store_chunk env.chunk s)).calls ≡ boots s.calls
    boots-stored = boots-report_progress (store_chunk env.chunk s) ∙ unfold store_chunk in refl

boots-download : (env : Answers) (s : Ota) → boots (download env s).calls ≡ boots s.calls
unfolding download set_state
boots-download env s = ground (
  arith,
  boots-give_up timed_out s,
  boots-give_up no_stream s,
  boots-give_up (connection_lost s.total_written) s,
  boots-take_chunk env s,
)

module _ (sha256 : List ℕ → List ℕ) where
  -- The counter and the hash of the image are the expected ones.
  pub record IsVerified (s : Ota) : Type 0 where
    pub sized : u32 (length s.image) ≡ s.expected_size
    pub hashed : same_ignoring_case (to_hex (sha256 s.image)) s.expected_sha256 ≡ true

  boots-abort : (e : Error) (s : Ota) → boots (abort sha256 e s).calls ≡ boots s.calls
  unfolding abort give_up set_error set_state cleanup_download call
  boots-abort e s = refl

  apply-IsVerified :
      (env : Answers) (s : Ota)
      → s.total_written ≡ u32 (length s.image)
      → s.hashed ≡ s.image
      → boots (apply sha256 env s).calls ≢ boots s.calls
      → IsVerified s
  unfolding apply
  apply-IsVerified env s c e h = elim (Bool-cases (s.total_written == s.expected_size)) [
    | inr short ↦
        absurd (h (rw short (boots-abort size_mismatch (record s { sha256_inited = false }))))
    | inl whole ↦
        elim (Bool-cases (same_ignoring_case (to_hex (sha256 s.hashed)) s.expected_sha256)) [
          | inr other ↦ absurd (
              h (
                rw (whole, other) (boots-abort hash_mismatch (record s { sha256_inited = false }))))
          | inl same ↦ record {
            sized = sym c ∙ ==→eq s.total_written s.expected_size whole;
            hashed =
                subst (λ b. same_ignoring_case (to_hex (sha256 b)) s.expected_sha256 ≡ true) e same;
          }
        ]
  ]

  boots-idle : (env : Answers) (s : Ota) → boots (dispatch sha256 idle env s).calls ≡ boots s.calls
  unfolding dispatch call set_state
  boots-idle env s = elim (Bool-cases (poll_due env.now s)) [
    | inr wait ↦ rw wait refl
    | inl due ↦ rw due (boots-check env _)
  ]

  boots-failed :
      (env : Answers) (s : Ota) → boots (dispatch sha256 failed env s).calls ≡ boots s.calls
  unfolding dispatch set_state
  boots-failed env s = ground arith

  dispatch-IsVerified :
      (st : OtaState) (env : Answers) (s : Ota)
      → s.state ≡ st
      → IsSound s
      → boots (dispatch sha256 st env s).calls ≢ boots s.calls
      → IsVerified s
  unfolding dispatch is_live
  dispatch-IsVerified idle env s e h b = absurd (b (boots-idle env s))
  dispatch-IsVerified checking env s e h b = absurd (b (boots-check env s))
  dispatch-IsVerified downloading env s e h b = absurd (b (boots-download env s))
  dispatch-IsVerified applying env s e h b =
      apply-IsVerified env s (h.counted (ap is_live e)) (h.same (ap is_live e)) b
  dispatch-IsVerified rebooting env s e h b = absurd (b refl)
  dispatch-IsVerified failed env s e h b = absurd (b (boots-failed env s))

  boots-offline :
      (wifi : Bool) (s t : Ota)
      → wifi ≡ false
      → boots (if not wifi then s else t).calls ≡ boots s.calls
  boots-offline wifi s t e = rw e refl

  boots-online :
      (wifi : Bool) (s t : Ota)
      → wifi ≡ true
      → boots (if not wifi then s else t).calls ≡ boots t.calls
  boots-online wifi s t e = rw e refl

  -- In a sound client, a tick that sets the boot partition or restarts the device does so for an
  -- image of the expected length (in 32 bits) and the expected hash, compared without regard to case.
  pub boots-IsVerified :
      (env : Answers) (s : Ota)
      → IsSound s
      → boots (loop_ota_client sha256 env s).calls ≢ boots s.calls
      → IsVerified s
  unfolding loop_ota_client
  boots-IsVerified env s h b =
      let next = dispatch sha256 s.state env s in
      elim (Bool-cases env.wifi_connected) [
        | inr off ↦ absurd (b (boots-offline env.wifi_connected s next off))
        | inl on ↦
            dispatch-IsVerified s.state env s refl h
              (λ e. b (boots-online env.wifi_connected s next on ∙ e))
      ]
