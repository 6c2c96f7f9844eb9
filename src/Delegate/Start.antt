-- ===== src/Delegate/Start.antt =====
-- What a delegate thread sends before it serves its first command: a pulse on its slot's reset line.
use reconos_v.Base.{ℕ, ◌+◌, ◌<◌, ◌≡◌, true, false, [], ◌∷◌, ◌++◌, ◌∙◌, append_assoc}
use reconos_v.Base.{length, get_or, arith, length-set}
use reconos_v.Machine.{Host, Machine, Hwt, ok}
use reconos_v.Fsl.Link.{IsOpen}
use reconos_v.Process.{max_slots, set_reset}
use reconos_v.Process.Reset.{Lines, slot_reset_lem, flag-set}
use reconos_v.Delegate.{delegate_thread_entry}

module _ {K : Type 0} (host : Host K) (hwt : Hwt) (m : Machine K) where
  -- The first two words on the control link are reset commands: in the first the reset line of the
  -- thread's slot is 1, in the second it is 0, and the lines of all other slots are as before.
  pub start_pulse :
      IsOpen m.proc.proc_control_fsl_b m.fsl_fd
      → length m.proc.slot_flags ≡ max_slots
      → hwt.slot < max_slots
      → let link = m.proc.proc_control_fsl_b in
        (u : Machine K) × (up : ℕ) × (down : ℕ) × (delegate_thread_entry host hwt 0 m ≡ ok true u)
        × (u.tx link ≡ m.tx link ++ ((0x01000000 + up) ∷ (0x01000000 + down) ∷ []))
        × Lines m.proc.slot_flags hwt.slot true up
        × Lines m.proc.slot_flags hwt.slot false down
  unfolding delegate_thread_entry
  start_pulse o sixteen lt =
      let flags = m.proc.slot_flags in
      let n = hwt.slot in
      let on = set_reset true (get_or flags n 0) in
      let (u, up, run, out, small, lines, proc, fds) = slot_reset_lem host m n true o sixteen lt in
      let o' : IsOpen u.proc.proc_control_fsl_b u.fsl_fd = rw (proc, fds) o in
      let sixteen' : length u.proc.slot_flags ≡ max_slots =
        rw proc (length-set flags n on ∙ sixteen) in
      let (w, down, run', out', small', lines', proc', fds') =
        slot_reset_lem host u n false o' sixteen' lt in
      (
        w,
        up,
        down,
        ground (arith, run, run'),
        rw proc at out' ∙ rw out (append_assoc (m.tx m.proc.proc_control_fsl_b) (_ ∷ []) (_ ∷ [])),
        lines,
        λ i h. rw proc at (lines' i h) ∙ ground (arith, flag-set flags n i on),
      )
