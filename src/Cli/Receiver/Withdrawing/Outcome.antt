-- ===== src/Cli/Receiver/Withdrawing/Outcome.antt =====
-- cli/transfer.ts: `maybeFinalize` as a whole, when failures are cleaned up at once.
use p2p_transfer.Base.{nat_eq}
use p2p_transfer.Cli.Receiver.{Receiver, ◌>>=◌}
