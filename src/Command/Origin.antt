-- ===== src/Command/Origin.antt =====
-- cmd/server/main.go: the host and the files of a server that is started from an accepted configuration.
use go_clipboard.Config.{Config}
use go_clipboard.Clips.Store.{Store}
