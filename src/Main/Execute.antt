-- ===== src/Main/Execute.antt =====
-- Execute and main of main.go: what is printed of the error of a command, and how the process ends. What
-- cobra runs for the arguments, and the usage text of the command that it found, are parameters.
pub mod Upgrade
use talm.Base.{Bool, ◌||◌, if◌then◌else◌, [], ◌∷◌, ◌++◌, ℕ}
use talm.Base.Text.{Text, codes, contains}
use talm.Base.Result.{Result, ok, err, panic, exit, message}
use talm.Commands.{World, Command}

-- Whether the usage is printed with an error of this text.
unfoldable pub shows_usage : Text → Bool
unfolding contains
shows_usage t =
    contains t (codes "arg(s)") || contains t (codes "flag") || contains t (codes "command")

-- What the standard error gets for an error.
unfoldable pub error_text : Text → Text → Text
unfolding shows_usage
error_text usage t = t ++ 10 ∷ (if shows_usage t then 10 ∷ (usage ++ 10 ∷ []) else [])

-- A panic and an exit do not come back to Execute.
unfoldable pub reported : {A : Type 0} → Bool → Text → Result A → Text
unfolding error_text message
reported suppressed usage (err e) = if suppressed then [] else error_text usage (message e)
reported suppressed usage _ = []

-- The standard error of Execute, behind the command.
unfoldable pub execute : {D A : Type 0} → Text → Command D A → World D → Text × Result A
unfolding reported
execute usage command w =
    (reported (command w).0.suppress_errors usage (command w).1, (command w).1)

-- The exit code of main, and that of Go for a panic.
unfoldable pub exit_code : {A : Type 0} → Result A → ℕ
exit_code (ok a) = 0
exit_code (err e) = 1
exit_code panic = 2
exit_code (exit out) = 0
