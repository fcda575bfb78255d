-- ===== src/Session/Reopened.antt =====
-- What was flushed comes back with the next `adbnc_open`.
use adbncfs.FileStatus.{FileStatus}
use adbncfs.Fs.State.{State}
