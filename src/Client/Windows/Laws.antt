-- ===== src/Client/Windows/Laws.antt =====
-- What the calls of the Windows API that src/client/client_win.cpp makes promise, as hypotheses.
use cpp_chat_channel.Base.{ℕ, suc, ◌≡◌, some, true, false, ◌==◌, nat_eq, if◌then◌else◌}
use cpp_chat_channel.Client.Windows.Terminal.{Handle, Mode, Win}

-- A console with the handles `input` and `output`, and the uses of the socket library that are open.
pub record WinLaws {K : Type 0} (win : Win K) : Type 0 where
  pub input : Handle
  pub output : Handle
  pub mode : Handle → K → Mode
  pub uses : K → ℕ
  pub input_gives : (k : K) → win.std_input k ≡ (some input, k)
  pub output_gives : (k : K) → win.std_output k ≡ (some output, k)
  pub get_input : (k : K) → win.get_mode input k ≡ (some (mode input k), k)
  pub get_output : (k : K) → win.get_mode output k ≡ (some (mode output k), k)
  pub set_sets :
      (h other : Handle) (m : Mode) (k : K)
      → mode other (win.set_mode h m k) ≡ (if h == other then m else mode other k)
  pub startup_mode : (h : Handle) (k : K) → mode h (win.wsa_startup k).1 ≡ mode h k
  pub cleanup_mode : (h : Handle) (k : K) → mode h (win.wsa_cleanup k) ≡ mode h k
  -- each WSAStartup that succeeds is undone by one WSACleanup
  pub startup_uses :
      (k : K) → (win.wsa_startup k).0 ≡ true → uses (win.wsa_startup k).1 ≡ suc (uses k)
  pub startup_fails : (k : K) → (win.wsa_startup k).0 ≡ false → uses (win.wsa_startup k).1 ≡ uses k
  pub cleanup_uses : (n : ℕ) (k : K) → uses k ≡ suc n → uses (win.wsa_cleanup k) ≡ n
