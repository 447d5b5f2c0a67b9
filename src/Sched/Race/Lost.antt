-- ===== src/Sched/Race/Lost.antt =====
-- What an interrupt's post in the middle loses, and that nothing else is different without one.
use rewind_os.Base.{ℕ, ◌≡◌, refl, []}
use rewind_os.Event.{Event}
use rewind_os.Sched.{Sched, sched_post, post_to}
use rewind_os.Sched.Run.{settle}
use rewind_os.Sched.Race.{interrupts, write_bitmap, settle_amid, sched_post_amid, post_to_amid}

-- With no interrupt the end of a round is that of `sched_run`, and a post is `sched_post`.
settle_amid-none : (s : Sched) (p : ℕ) → settle_amid [] [] s p ≡ settle s p
unfolding settle_amid settle write_bitmap interrupts
settle_amid-none s p = refl

sched_post_amid-none :
    (s : Sched) (i : ℕ) (e : Event) → sched_post_amid [] [] s i e ≡ sched_post s i e
unfolding sched_post_amid sched_post post_to_amid post_to write_bitmap interrupts
sched_post_amid-none s i e = refl
