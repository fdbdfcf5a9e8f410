-- ===== src/Service/Requests/Paused.antt =====
-- Console input while the MCU has paused the line.
use arduino_yun_bridge.Base.{
  false, All, is_empty, true, zero, suc, length-drop, arith, length-append, ◌+◌, ◌-◌, length, ◌≡◌,
  ◌≤◌, drop, Bytes, List, ℕ, ap, sym, ◌∙◌, refl, [], ◌∷◌, ◌++◌,
}
use mathlib.Core.List.{append-nil, append_assoc}
use arduino_yun_bridge.Console.{flush_loop, Console, push, flush_console_queue}
use arduino_yun_bridge.Service.Requests.{handle_console}

-- The last items.
abbrev pub last : ℕ → List Bytes → List Bytes
last n xs = drop (length xs - n) xs

drop-drop-append :
    (k j : ℕ) (xs ys : List Bytes)
    → k ≤ length xs
    → drop j (drop k xs ++ ys) ≡ drop (k + j) (xs ++ ys)
drop-drop-append zero j xs ys h = ap (λ n. drop n (xs ++ ys)) (omega arith)
drop-drop-append (suc k) j [] ys h = absurd (omega arith)
drop-drop-append (suc k) j (x ∷ xs) ys h =
    drop-drop-append k j xs ys (omega arith) ∙ ap (λ n. drop n (x ∷ (xs ++ ys))) next_lem
  where
    next_lem : suc (k + j) ≡ suc k + j
    next_lem = omega arith

last-last : (n : ℕ) (xs ys : List Bytes) → last n (last n xs ++ ys) ≡ last n (xs ++ ys)
last-last n xs ys =
    let k = length xs - n in
    let j = length (drop k xs ++ ys) - n in
    let inner = length-append (drop k xs) ys in
    let outer = length-append xs ys in
    drop-drop-append k j xs ys (omega arith)
    ∙ ap (λ m. drop m (xs ++ ys)) (omega (arith, inner, outer, length-drop k xs))

all_kept : (n : ℕ) (xs : List Bytes) → length xs ≤ n → xs ≡ last n xs
all_kept n xs h = ap (λ k. drop k xs) none_over
  where
    none_over : 0 ≡ length xs - n
    none_over = omega arith

-- The inputs, one after the other.
abbrev pub handle_all : List Bytes → Console → Console
handle_all [] k = k
handle_all (payload ∷ rest) k = handle_all rest (handle_console payload k)

paused_loop :
    (bufs : List Bytes) (k : Console)
    → k.mcu_is_paused ≡ true
    → flush_loop bufs k ≡ record k { console_to_mcu_queue = bufs }
unfolding flush_loop
paused_loop [] k paused = refl
paused_loop (buf ∷ bufs) k paused = rw paused refl

paused_flush : (k : Console) → k.mcu_is_paused ≡ true → flush_console_queue k ≡ k
unfolding flush_console_queue
paused_flush k paused = paused_loop k.console_to_mcu_queue k paused

paused_step :
    (payload : Bytes) (k : Console)
    → k.mcu_is_paused ≡ true
    → is_empty payload ≡ false
    → handle_console payload k ≡ push payload k
unfolding handle_console
paused_step payload k paused full = rw full (paused_flush (push payload k) paused)

-- While the MCU has paused the line, whatever is given to the console waits, and of all that has been
-- given only as many of the newest items as the limit of the mailbox allows: the others are gone.
pub paused_keeps_last :
    (payloads : List Bytes) (k : Console)
    → k.mcu_is_paused ≡ true
    → All (λ payload. is_empty payload ≡ false) payloads
    → length k.console_to_mcu_queue ≤ k.mailbox_queue_limit
    → (handle_all payloads k).console_to_mcu_queue
      ≡ last k.mailbox_queue_limit (k.console_to_mcu_queue ++ payloads)
paused_keeps_last [] k paused full within =
    all_kept k.mailbox_queue_limit k.console_to_mcu_queue within
    ∙ ap (last k.mailbox_queue_limit) (sym (append-nil k.console_to_mcu_queue))
paused_keeps_last (payload ∷ rest) k paused (here, later) within =
    let limit = k.mailbox_queue_limit in
    let q = k.console_to_mcu_queue in
    let begun = push payload k in
    let longer = q ++ (payload ∷ []) in
    ap (λ x. (handle_all rest x).console_to_mcu_queue) (paused_step payload k paused here)
    ∙ paused_keeps_last rest begun paused later
        (omega (arith, length-drop (length longer - limit) longer))
    ∙ last-last limit longer rest
    ∙ ap (last limit) (append_assoc q (payload ∷ []) rest)
