-- ===== src/Ril/Channel/Writes.antt =====
-- What `writeline` and `writeCtrlZ` of android2.1_init/hard_ril/reference-ril/atchannel.c write.
use demonstratortool.Base.{
  ℕ, zero, suc, ◌+◌, ◌≤◌, ◌≡◌, refl, sym, ap, ◌∙◌, subst, inl, inr, true, false, Option, none, some,
  List, [], ◌∷◌, ◌++◌, arith, Option-cases, length, take, drop, Bytes,
}
use mathlib.Core.List.{append-nil, append_assoc}
use demonstratortool.Ril.Channel.{
  AtError, generic, Effect, wrote, unsolicited, on_timeout, on_reader_closed, Channel, Link, IsLink,
  Run, done, ◌>>=◌, emit, write_loop, write_ended, writeline,
}

-- The bytes that the modem has taken, in order; a trace has the last effect first.
abbrev pub written : List Effect → Bytes
written [] = []
written (wrote s ∷ es) = written es ++ s
written (unsolicited line pdu ∷ es) = written es
written (on_timeout ∷ es) = written es
written (on_reader_closed ∷ es) = written es

-- The bytes are written, and nothing else changes but the count of calls.
pub record Wrote (c c' : Channel) (s : Bytes) : Type 0 where
  pub bytes : written c'.trace ≡ written c.trace ++ s
  pub same : c' ≡ record c { writes = c'.writes; trace = c'.trace }

-- All of a text is written, or a part of it and then there is an error.
pub data WriteEnds (c : Channel) (s : Bytes) : Run (Option AtError × Channel) → Type 0 where
  all_written : {c' : Channel} → Wrote c c' s → WriteEnds c s (done (none, c'))
  failed :
      {c' : Channel} (part rest : Bytes)
      → s ≡ part ++ rest
      → Wrote c c' part
      → WriteEnds c s (done (some generic, c'))

take-drop : (k : ℕ) (s : Bytes) → take k s ++ drop k s ≡ s
take-drop zero s = refl
take-drop (suc k) [] = refl
take-drop (suc k) (x ∷ s) = rw (take-drop k s)

length-drop : (k : ℕ) (s : Bytes) → k ≤ length s → length (drop k s) + k ≡ length s
length-drop zero s h = omega arith
length-drop (suc k) [] h = absurd (omega arith)
length-drop (suc k) (x ∷ s) h = omega (arith, length-drop k s)

Wrote-trans : {c d e : Channel} {s t : Bytes} → Wrote c d s → Wrote d e t → Wrote c e (s ++ t)
Wrote-trans {c} {d} {e} {s} {t} a b = record {
  bytes = b.bytes ∙ ap (λ (x : Bytes). x ++ t) a.bytes ∙ append_assoc _ s t;
  same = b.same ∙ ap (λ (x : Channel). record x { writes = e.writes; trace = e.trace }) a.same;
}

WriteEnds-after :
    (c d : Channel) (a s : Bytes) {m : Run (Option AtError × Channel)}
    → Wrote c d a
    → WriteEnds d s m
    → WriteEnds c (a ++ s) m
WriteEnds-after c d a s w (all_written v) = all_written (Wrote-trans w v)
WriteEnds-after c d a s w (failed part rest e v) =
    failed (a ++ part) rest (ap (λ (x : Bytes). a ++ x) e ∙ sym (append_assoc a part rest))
      (Wrote-trans w v)

write_loop-WriteEnds :
    (link : Link) (fuel : ℕ) (s : Bytes) (c : Channel)
    → IsLink link
    → length s ≤ fuel
    → WriteEnds c s (write_loop link fuel s c)
unfolding write_loop
write_loop-WriteEnds link fuel [] c ok h =
    all_written (record { bytes = sym (append-nil _); same = refl })
write_loop-WriteEnds link zero (x ∷ s) c ok h = absurd (omega arith)
write_loop-WriteEnds link (suc fuel) (x ∷ s) c ok h =
    elim (Option-cases (link.write c.writes (x ∷ s))) [
      | inl e ↦
          rw (e, write_loop)
            (failed [] (x ∷ s) refl (record { bytes = sym (append-nil _); same = refl }))
      | inr (k, e) ↦
          let taken = ok.some_bytes c.writes (x ∷ s) k e (omega arith) in
          let c' : Channel = emit (wrote (take k (x ∷ s))) (record c { writes = c.writes + 1 }) in
          let rest =
            write_loop-WriteEnds link fuel (drop k (x ∷ s)) c' ok
              (omega (arith, length-drop k (x ∷ s) taken.1)) in
          rw (e, write_loop)
            (subst (λ t. WriteEnds c t (write_loop link fuel (drop k (x ∷ s)) c'))
              (take-drop k (x ∷ s))
              (WriteEnds-after c c' (take k (x ∷ s)) (drop k (x ∷ s))
                (record { bytes = refl; same = refl }) rest))
    ]

WriteEnds-bind :
    (c : Channel) (s t : Bytes) {m : Run (Option AtError × Channel)}
    (f : Channel → Run (Option AtError × Channel))
    → WriteEnds c s m
    → ((d : Channel) → Wrote c d s → WriteEnds d t (f d))
    → WriteEnds c (s ++ t) (
        m >>= λ (r : Option AtError × Channel). elim r.0 [
          | some e ↦ done (some e, r.1)
          | none ↦ f r.1
        ])
WriteEnds-bind c s t f (all_written {c' = d} w) k = WriteEnds-after c d s t w (k d w)
WriteEnds-bind c s t f (failed part rest e w) k =
    failed part (rest ++ t) (ap (λ (x : Bytes). x ++ t) e ∙ append_assoc part rest t) w

-- With an open channel whose reader has not ended, and writes that take a byte at least, `writeline`
-- comes to an end: it has written the text and a carriage return, or there is an error and it has
-- written a part of these from the start. Nothing else of the channel changes.
pub writeline-WriteEnds :
    (link : Link) (s : Bytes) (c : Channel)
    → IsLink link
    → c.fd_open ≡ true
    → c.reader_closed ≡ false
    → WriteEnds c (s ++ b'\r' ∷ []) (writeline link s c)
unfolding writeline write_ended
writeline-WriteEnds link s c ok o r =
    let runs : write_ended link s b'\r' c ≡ (
        write_loop link (length s) s c >>= λ (r : Option AtError × Channel). elim r.0 [
          | some e ↦ done (some e, r.1)
          | none ↦ write_loop link 1 (b'\r' ∷ []) r.1
        ]) =
      simp (o, r) in
    subst (WriteEnds c (s ++ b'\r' ∷ [])) (sym runs) (
      WriteEnds-bind c s (b'\r' ∷ []) (write_loop link 1 (b'\r' ∷ []))
        (write_loop-WriteEnds link (length s) s c ok (omega arith))
        (λ d w. write_loop-WriteEnds link 1 (b'\r' ∷ []) d ok (omega arith)))
