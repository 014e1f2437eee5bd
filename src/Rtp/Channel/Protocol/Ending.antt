-- ===== src/Rtp/Channel/Protocol/Ending.antt =====
-- From every state of the two ends, until the receiver leaves, there is a run to the end of both.
use native.Mathlib.Decide.{dec_lt}
use networking_labs.Prelude.{
  ℕ, zero, suc, ◌+◌, ◌*◌, ◌%◌, ◌^◌, ◌≤◌, ◌<◌, ◌≡◌, refl, sym, ap, subst, ◌∙◌, ◌⊎◌, inl, inr, List,
  Option, [], ◌∷◌, none, some, true, false, arith, length, All-get, Bool-cases,
}
use networking_labs.Rtp.Packet.{RtpPacket, rtp_packet_text, fresh_memory, rtp_end, rtp_ack}
use networking_labs.Rtp.Packet.Build.{rtp_packet_text-IsPacket}
use networking_labs.Rtp.Wire.RoundTrip.{received}
use networking_labs.Rtp.Receiver.{Receiver, Arrival, Round, round}
use networking_labs.Rtp.Receiver.Answers.{round_end}
use networking_labs.Rtp.Sender.{Sender, Event, Turn, con_end}
use networking_labs.Rtp.Channel.{nothing, System, closes, Reach, here, later}
use networking_labs.Rtp.Channel.Protocol.{Protocol}
use networking_labs.Rtp.Channel.Protocol.Coherence.{Coherent, length-sent_texts}
use networking_labs.Rtp.Channel.Protocol.Runs.{run-Coherent, Coherent-done}
use networking_labs.Rtp.Channel.Protocol.Advance.{
  IsOngoing, IsDone, sender_round, receiver_round, delivered, same_header,
}
use networking_labs.Rtp.Channel.Protocol.Answered.{Progress, IsAnswered, run-IsAnswered}

module _ {send : Sender → Event → Option Turn} {recv : Receiver → Arrival → Round} where
  pub Reach-trans :
      {s t u : System} → Reach send recv s t → Reach send recv t u → Reach send recv s u
  Reach-trans first here = first
  Reach-trans first (later run step) = later (Reach-trans first run) step

module _ {message : List ℕ} {w : ℕ} {send : Sender → Event → Option Turn}
    {ack_seq : Receiver → RtpPacket → ℕ} {proto : Protocol message w send ack_seq}
    (go : Progress proto) where
  -- The sender has left its loop, or one of the two windows has moved on.
  abbrev IsOnward : System → System → Type 0
  IsOnward s t =
      ((t.done ≡ true) × (t.closed ≡ false))
      ⊎ (t.done ≡ false)
        × (t.closed ≡ false)
        × (s.sender.base + s.receiver.firstneedrecv < t.sender.base + t.receiver.firstneedrecv)

  -- The ACK that is heard moves the sender's window.
  ack-IsOnward :
      (s t : System) (q : RtpPacket)
      → s.closed ≡ false
      → q.rtp.type ≡ rtp_ack
      → go.Confirms q.rtp.seq_num s.sender.base
      → IsDone go s t ⊎ IsOngoing go s (some (received q)) t
      → IsOnward s t
  ack-IsOnward s t q not_closed of_ack means (inl (done, same)) = inl (done, same ∙ not_closed)
  ack-IsOnward s t q not_closed of_ack means (inr x) =
      let type : (received q).rtp.type ≡ rtp_ack = ap (λ h. h.type) (same_header q) ∙ of_ack in
      let number = ap (λ h. h.seq_num) (same_header q) in
      let moved =
        x.moves_on (received q) refl type
          (subst (λ (n : ℕ). go.Confirms n s.sender.base) (sym number) means) in
      inr (
        x.busy,
        x.same_closed ∙ not_closed,
        omega (arith, moved, ap (λ r. r.firstneedrecv) x.same_receiver),
      )

  -- All packets are sent and the one that is needed arrives: it moves the receiver's window.
  data-IsOnward :
      (s t : System)
      → Coherent proto t
      → s.closed ≡ false
      → s.receiver.firstneedrecv ≤ s.sender.base
      → IsDone go s t ⊎ IsOngoing go s none t
      → (u : System) × Reach send (round ack_seq) t u × IsOnward s u
  data-IsOnward s t c not_closed level (inl (done, same)) = (t, here, inl (done, same ∙ not_closed))
  data-IsOnward s t c not_closed level (inr x) =
      let same = ap (λ r. r.firstneedrecv) x.same_receiver in
      let (u, step, done, still, sender, moved) =
        receiver_round go t c (x.same_closed ∙ not_closed)
          (omega (arith, same, x.unacked, x.all_sent)) in
      (
        u,
        later here step,
        inr (done ∙ x.busy, still, omega (arith, moved, same, x.no_less, ap (λ v. v.base) sender)),
      )

  onward :
      (s : System)
      → Coherent proto s
      → IsAnswered go s
      → s.done ≡ false
      → s.closed ≡ false
      → (t : System) × Reach send (round ack_seq) s t × IsOnward s t
  onward s c answered busy not_closed = elim (dec_lt s.sender.base s.receiver.firstneedrecv) [
    | yes known ↦
        let (k, q, there, means) = answered s.sender.base (go.known_passed s.receiver _ known) in
        let (whole, of_ack, says) = All-get _ s.acks k c.acks there in
        let (t, step, outcome) =
          sender_round go s (some (received q)) c busy (delivered s.acks k q there whole) in
        (t, later here step, ack-IsOnward s t q not_closed of_ack means outcome)
    | no level ↦
        let (t, step, outcome) = sender_round go s none c busy nothing in
        let run = later here step in
        let (u, run', further) =
          data-IsOnward s t (run-Coherent proto s t c run) not_closed (omega arith) outcome in
        (u, Reach-trans run run', further)
  ]

  windows_bounded :
      (s : System)
      → Coherent proto s
      → s.sender.base + s.receiver.firstneedrecv ≤ 2 * length message
  windows_bounded s c =
      let v = c.sending in
      omega (
        arith,
        c.receiving.moving.within,
        length-sent_texts proto v,
        v.first_sent,
        v.sent_read,
        v.room,
      )

  run_on :
      (fuel : ℕ) (s : System)
      → Coherent proto s
      → IsAnswered go s
      → s.done ≡ false
      → s.closed ≡ false
      → 2 * length message < s.sender.base + s.receiver.firstneedrecv + fuel
      → (t : System) × Reach send (round ack_seq) s t × (t.done ≡ true) × (t.closed ≡ false)
  run_on zero s c answered busy not_closed enough = absurd (omega (arith, windows_bounded s c))
  run_on (suc fuel) s c answered busy not_closed enough =
      let (t, run, outcome) = onward s c answered busy not_closed in
      elim outcome [
        | inl (done, still) ↦ (t, run, done, still)
        | inr (busy', still, further) ↦
            let (u, run', done, still') =
              run_on fuel t (run-Coherent proto s t c run) (run-IsAnswered go s t c answered run)
                busy' still (omega arith) in
            (u, Reach-trans run run', done, still')
      ]

  -- The end of the connection arrives, and the receiver leaves its loop.
  last_round :
      (s : System)
      → Coherent proto s
      → s.done ≡ true
      → s.closed ≡ false
      → (t : System) × Reach send (round ack_seq) s t
        × (t.done ≡ true)
        × (t.closed ≡ true)
        × (t.receiver.file ≡ message)
  unfolding con_end rtp_packet_text
  last_round s c done not_closed =
      let p = con_end s.sender in
      let q = received p in
      let a : Arrival = record {
        newpack = some q;
        at = s.receiver.timer;
        now = s.receiver.timer;
      } in
      let whole =
        (rtp_packet_text-IsPacket fresh_memory rtp_end (length s.sender.packs % 2 ^ 32)
          (omega arith) (omega arith)).0 in
      let of_end : q.rtp.type ≡ rtp_end = ap (λ h. h.type) (same_header p) in
      (
        _,
        later here (
            closes a done not_closed (delivered (p ∷ []) 0 p refl whole)
              (round_end ack_seq s.receiver a q refl of_end)),
        done,
        refl,
        Coherent-done proto s c done,
      )

  -- In a run that the receiver has not left, both can leave their loops, and then the file is there.
  pub run_to_end :
      (s t : System)
      → Coherent proto s
      → IsAnswered go s
      → Reach send (round ack_seq) s t
      → t.closed ≡ false
      → (u : System) × Reach send (round ack_seq) t u
        × (u.done ≡ true)
        × (u.closed ≡ true)
        × (u.receiver.file ≡ message)
  run_to_end s t c answered run not_closed =
      let c' = run-Coherent proto s t c run in
      elim (Bool-cases t.done) [
        | inl done ↦ last_round t c' done not_closed
        | inr busy ↦
            let (u, run', done, still) =
              run_on (suc (2 * length message)) t c' (run-IsAnswered go s t c answered run) busy
                not_closed (omega arith) in
            let (v, run'', done', left, file) =
              last_round u (run-Coherent proto t u c' run') done still in
            (v, Reach-trans run' run'', done', left, file)
      ]
