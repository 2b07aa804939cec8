-- ===== src/Lsp/Framing/Frames.antt =====
-- Contents framed one behind the other, as crates/vraftls-lsp/src/proxy.rs writes them to a pipe.
use vraftls.Prelude.{
  ℕ, ◌<◌, ◌≤◌, ◌≡◌, refl, sym, ap, ◌∙◌, List, [], ◌∷◌, ◌++◌, Text, decimal, length, length-append,
  All, nat_eq, arith,
}
use mathlib.Core.List.{append_assoc, append-nil}
use vraftls.Lsp.Framing.{frame}
use vraftls.Lsp.Framing.Streams.{frames}

frames-append : (ms ns : List Text) → frames (ms ++ ns) ≡ frames ms ++ frames ns
unfolding frames
frames-append [] ns = refl
frames-append (m ∷ ms) ns =
    ap (◌++◌ (frame m)) (frames-append ms ns) ∙ sym (append_assoc (frame m) (frames ms) (frames ns))

pub frames_snoc : (ms : List Text) (m : Text) → frames (ms ++ m ∷ []) ≡ frames ms ++ frame m
unfolding frames
frames_snoc ms m = frames-append ms (m ∷ []) ∙ ap (◌++◌ (frames ms)) (append-nil (frame m))

frame-length_content : (m : Text) → length m ≤ length (frame m)
unfolding frame
frame-length_content m =
    let lengths = length-append (decimal (length m)) (13 ∷ 10 ∷ 13 ∷ 10 ∷ m) in
    omega (arith, lengths)

pub frames-small : (ms : List Text) (n : ℕ) → length (frames ms) < n → All (λ m. length m < n) ms
unfolding frames frame
frames-small [] n h = tt
frames-small (m ∷ ms) n h =
    let lengths = length-append (frame m) (frames ms) in
    let inner = frame-length_content m in
    (omega (arith, lengths, inner), frames-small ms n (omega (arith, lengths)))
