-- ===== src/Scan/Header.antt =====
-- `scan_skip_whitespace` with SCAN_AUTOSKIP_WS_HEADER at the end of a header.
use zhangxy.Base.{ℕ, ◌+◌, ◌-◌, ◌^◌, ◌<◌, ◌≡◌, refl, ◌⊎◌, true, false, ◌&&◌, arith}
use zhangxy.Scan.{
  Scanner, byte_at, is_space, is_newline, autoskip_newline, autoskip_header, skip_while,
  skip_whitespace, line_end, get_col,
}

-- At a line break that no blank follows, the scanner stops in front of the break but sets the start
-- of its line behind it: the column that `scan_get_col` then gives is -1, or -2 for CR LF.
pub header_end_col :
    (sc : Scanner) (s : ℕ)
    → s ≡ skip_while is_space sc sc.curptr
    → autoskip_header sc.skip_ws ≡ true
    → autoskip_newline sc.skip_ws ≡ false
    → is_newline (byte_at sc s) ≡ true
    → is_space (byte_at sc (line_end sc s)) ≡ false
    → s + 2 < 2 ^ 32
    → ((skip_whitespace sc).curptr ≡ s)
      × (get_col (skip_whitespace sc) + (line_end sc s - s) ≡ 2 ^ 32)
      × ((line_end sc s ≡ s + 1) ⊎ (line_end sc s ≡ s + 2))
unfolding skip_whitespace get_col
header_end_col sc s at hd nl brk flat small =
    let off : is_newline (byte_at sc s) && autoskip_newline sc.skip_ws ≡ false =
      rw nl (ground arith) in
    let on : is_newline (byte_at sc s) && autoskip_header sc.skip_ws ≡ true = rw (brk, hd) refl in
    let ends : (line_end sc s ≡ s + 1) ⊎ (line_end sc s ≡ s + 2) = ground arith in
    rw (← at, off, on, flat) (refl, omega arith, ends)
