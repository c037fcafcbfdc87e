-- ===== src/Printer/Stream.antt =====
-- What the functions of the printer driver do to the stream of characters: those in the requests that are
-- done, and those that wait.
use mathlib.Core.List.{append-nil, append_assoc}
use fujinet_msdos.Base.{
  ℕ, zero, suc, ◌+◌, ◌≤◌, ◌<◌, ◌≡◌, ◌≢◌, refl, sym, ap, ◌∙◌, Bool, true, false, not, [], ◌∷◌, ◌++◌,
  Bytes, inl, inr, arith, leb, ◌==◌, if◌then◌else◌, set, take, length, length-set, Bool-cases,
  if_rule,
}
use fujinet_msdos.FujiF5.{FujiBus}
use fujinet_msdos.Printer.{
  Printer, prn_buf_size, prn_buf_flush, printer_device, flush_prn_buf, append_char, clear_buffer,
  put_char, prn_buf_add,
}

pub record IsPrinter {W : Type 0} (p : Printer W) : Type 0 where
  pub size_is : length p.prn_buf ≡ prn_buf_size
  pub within : p.prn_buf_len ≤ prn_buf_size

-- `sent` tells what those requests have carried that were not answered with 0, which is what the driver takes
-- for done; whether the device has printed it is another matter.
pub record Carries {W : Type 0} (bus : FujiBus W) (sent : W → Bytes) : Type 0 where
  pub done :
      (w : W) (content : Bytes)
      → (bus.write_call w printer_device b'W' 0 0 0 content).0 ≢ 0
      → sent (bus.write_call w printer_device b'W' 0 0 0 content).1 ≡ sent w ++ content
  pub undone :
      (w : W) (content : Bytes)
      → (bus.write_call w printer_device b'W' 0 0 0 content).0 ≡ 0
      → sent (bus.write_call w printer_device b'W' 0 0 0 content).1 ≡ sent w

-- What has been sent, and behind it what waits in the buffer.
abbrev pub stream : {W : Type 0} → (W → Bytes) → Printer W → Bytes
stream sent p = sent p.world ++ take p.prn_buf_len p.prn_buf

take_append_set :
    (xs : Bytes) (n c : ℕ) → n < length xs → take (n + 1) (set xs n c) ≡ take n xs ++ c ∷ []
take_append_set [] n c h = absurd (omega arith)
take_append_set (x ∷ xs) zero c h = refl
take_append_set (x ∷ xs) (suc n) c h =
    let again = take_append_set xs n c (omega arith) in
    let same : suc n + 1 ≡ suc (n + 1) = omega arith in rw same (ap (◌∷◌ x) again)

append_char-stream :
    {W : Type 0} (sent : W → Bytes) (c : ℕ) (p : Printer W)
    → p.prn_buf_len < length p.prn_buf
    → stream sent (append_char c p) ≡ stream sent p ++ c ∷ []
unfolding append_char
append_char-stream sent c p h =
    ap (◌++◌ (sent p.world)) (take_append_set p.prn_buf p.prn_buf_len c h)
    ∙ sym (append_assoc (sent p.world) (take p.prn_buf_len p.prn_buf) (c ∷ []))

length-clear_buffer : length clear_buffer ≡ prn_buf_size
unfolding clear_buffer
length-clear_buffer = refl

module _ {W : Type 0} (bus : FujiBus W) (sent : W → Bytes) (carries : Carries bus sent) where
  pub record Flushed (p : Printer W) (r : Bool × Printer W) : Type 0 where
    pub same_stream : stream sent r.1 ≡ stream sent p
    pub is_printer : IsPrinter r.1
    pub buffering_is : r.1.buffering_enabled ≡ p.buffering_enabled
    pub emptied : r.0 ≡ true → r.1.prn_buf_len ≡ 0

  pub flush_prn_buf-Flushed : (p : Printer W) → IsPrinter p → Flushed p (flush_prn_buf bus p)
  unfolding flush_prn_buf
  flush_prn_buf-Flushed p v =
      let content = take p.prn_buf_len p.prn_buf in
      let reply = (bus.write_call p.world printer_device b'W' 0 0 0 content).0 in
      elim (Bool-cases (p.prn_buf_len == 0)) [
        | inl none_there ↦
            rw (flush_prn_buf, none_there)
              (record {
                same_stream = refl;
                is_printer = v;
                buffering_is = refl;
                emptied = λ x. ground arith;
              })
        | inr some_there ↦ elim (Bool-cases (reply == 0)) [
          | inl bad ↦
              rw (flush_prn_buf, some_there, bad)
                (record {
                  same_stream =
                      ap (λ t. t ++ content) (carries.undone p.world content (ground arith));
                  is_printer = record { size_is = v.size_is; within = v.within };
                  buffering_is = refl;
                  emptied = λ x. cc;
                })
          | inr good ↦
              rw (flush_prn_buf, some_there, good)
                (record {
                  same_stream = append-nil _ ∙ carries.done p.world content (ground arith);
                  is_printer = record { size_is = length-clear_buffer; within = omega arith };
                  buffering_is = refl;
                  emptied = λ x. refl;
                })
        ]
      ]

  -- What becomes of a character: it is behind the others where it is accepted.
  pub record Added (c : ℕ) (p : Printer W) (r : Bool × Printer W) : Type 0 where
    pub stream_is :
        p.buffering_enabled ≡ true → stream sent r.1 ≡ stream sent p ++ (if r.0 then c ∷ [] else [])
    pub is_printer : IsPrinter r.1
    pub buffering_is : r.1.buffering_enabled ≡ p.buffering_enabled

  put_char-Added :
      (c : ℕ) (p : Printer W)
      → IsPrinter p
      → p.prn_buf_len < prn_buf_size
      → Added c p (put_char bus c p)
  unfolding put_char append_char
  put_char-Added c p v small =
      let p1 = append_char c p in
      let p2 = record p1 { last_activity = p1.timer_counter; flush_pending = false } in
      let v1 : IsPrinter p1 = record {
        size_is = length-set p.prn_buf p.prn_buf_len c ∙ v.size_is;
        within = omega arith;
      } in
      let v2 : IsPrinter p2 = record { size_is = v1.size_is; within = v1.within } in
      let f1 = flush_prn_buf-Flushed p1 v1 in
      let f2 = flush_prn_buf-Flushed p2 v2 in
      let there = append_char-stream sent c p (omega (arith, v.size_is)) in
      if_rule (Added c p) (not p.buffering_enabled) _ _
        (λ off. record {
          stream_is = λ x. ground arith;
          is_printer = f1.is_printer;
          buffering_is = f1.buffering_is;
        })
        (λ on.
          if_rule (Added c p) (leb prn_buf_flush p2.prn_buf_len) _ _
            (λ full. record {
              stream_is = λ x. f2.same_stream ∙ there;
              is_printer = f2.is_printer;
              buffering_is = f2.buffering_is;
            })
            (λ room. record { stream_is = λ x. there; is_printer = v2; buffering_is = refl }))

  pub prn_buf_add-Added : (c : ℕ) (p : Printer W) → IsPrinter p → Added c p (prn_buf_add bus c p)
  unfolding prn_buf_add
  prn_buf_add-Added c p v =
      let f = flush_prn_buf-Flushed p v in
      if_rule (Added c p) (leb prn_buf_size p.prn_buf_len) _ _
        (λ full.
          if_rule (Added c p) (flush_prn_buf bus p).0 _ _
            (λ ok.
              let a =
                put_char-Added c (flush_prn_buf bus p).1 f.is_printer
                  (omega (arith, f.emptied ok)) in
              record {
                stream_is = λ x.
                    a.stream_is (f.buffering_is ∙ x)
                    ∙ ap
                        (λ t.
                          t ++ (if (put_char bus c (flush_prn_buf bus p).1).0 then c ∷ [] else []))
                        f.same_stream;
                is_printer = a.is_printer;
                buffering_is = a.buffering_is ∙ f.buffering_is;
              })
            (λ bad. record {
              stream_is = λ x. f.same_stream ∙ sym (append-nil _);
              is_printer = f.is_printer;
              buffering_is = f.buffering_is;
            }))
        (λ room. put_char-Added c p v (ground arith))
