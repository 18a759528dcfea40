-- ===== src/Bridge/Closing.antt =====
-- The start and the end of a connection keep the invariant: the hello exchange and the finaliser of
-- packages/effect-tls-client/src/internal/Bridge.ts.
use effect_tls_client.Prelude.{
  ◌≡◌, refl, Bool, true, false, [], ◌∷◌, if◌then◌else◌, Bool-cases, Option-cases, inl, inr,
}
use effect_tls_client.Frame.Codec.{Frame}
use effect_tls_client.Protocol.Metadata.{HelloAckMeta}
use effect_tls_client.Protocol.Schema.{JsonCodec, is_some, decode_meta, hello_ack}
use effect_tls_client.Bridge.World.{World, State, with_state, emit, kill}
use effect_tls_client.Bridge.Ledger.{ends, Settles, Settles-quiet, Settles-trans}
use effect_tls_client.Bridge.Ending.{mark_dead-Settles}
use effect_tls_client.Bridge.Returns.{Settles-emit}
use effect_tls_client.Bridge.Hello.{
  send_hello, hello_timed_out, accept_hello, accept_hello_meta, versions_agree, release_start,
  release_end,
}
use effect_tls_client.Bridge.Orderly.{
  Progress, Progress_trans, Progress_refl, Settles-Progress, register-Progress, write_frame-Settles,
}

killed-Settles : (w : World) → Settles w (emit (kill ∷ []) w)
unfolding ends
killed-Settles w = Settles-emit kill w (λ r. refl)

with_state-Settles : (s : State) (w : World) → s.dead ≡ w.dead → Settles w (with_state s w)
with_state-Settles s w d = Settles-quiet w _ refl d refl (λ r. refl)

pub send_hello-Progress :
    (codec : JsonCodec) (stdin_ok : Bool) (w : World) → Progress w (send_hello codec stdin_ok w).0
unfolding send_hello
send_hello-Progress codec stdin_ok w =
    Progress_trans (register-Progress 0 _ w) (Settles-Progress (write_frame-Settles stdin_ok _ _))

pub hello_timed_out-Settles : (w : World) → Settles w (hello_timed_out w).0
unfolding hello_timed_out
hello_timed_out-Settles w = Settles-trans (mark_dead-Settles _ w) (killed-Settles _)

accept_hello_meta-Settles :
    (meta : HelloAckMeta) (w : World) → Settles w (accept_hello_meta meta w).0
unfolding accept_hello_meta
accept_hello_meta-Settles meta w = elim (Bool-cases (versions_agree meta)) [
  | inl e ↦ rw e (with_state-Settles _ w refl)
  | inr e ↦ rw e (Settles-trans (mark_dead-Settles _ w) (killed-Settles _))
]

pub accept_hello-Settles :
    (codec : JsonCodec) (frame : Frame) (w : World) → Settles w (accept_hello codec frame w).0
unfolding accept_hello
accept_hello-Settles codec frame w = elim (Option-cases (decode_meta codec hello_ack frame.meta)) [
  | inl e ↦ rw (e, accept_hello) (mark_dead-Settles _ w)
  | inr (meta, e) ↦ rw (e, accept_hello) (accept_hello_meta-Settles meta w)
]

Progress_if :
    {A : Type 0} (w : World) (b : Bool) (x y : World × A)
    → Progress w x.0
    → Progress w y.0
    → Progress w (if b then x else y).0
Progress_if w true x y h k = h
Progress_if w false x y h k = k

pub release_start-Progress :
    (codec : JsonCodec) (stdin_ok : Bool) (w : World)
    → Progress w (release_start codec stdin_ok w).0
unfolding release_start
release_start-Progress codec stdin_ok w =
    let closing : Progress w (with_state (record w.state { closing = true }) w) =
      Settles-Progress (with_state-Settles _ w refl) in
    Progress_if w w.closing _ _ (Progress_refl w) (
      Progress_if w (is_some w.dead) _ _
        (Progress_trans closing (Settles-Progress (killed-Settles _)))
        (Progress_trans closing (
          Progress_trans (register-Progress 0 _ _)
            (Settles-Progress (write_frame-Settles stdin_ok _ _)))))

pub release_end-Settles : (w : World) → Settles w (release_end w)
unfolding release_end
release_end-Settles w = killed-Settles w
