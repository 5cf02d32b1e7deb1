-- ===== src/Deployment/Recovery.antt =====
-- A client's request that a dead cache server never answers is asked again and served by another one:
-- `check_cache_server_request_map` of Client/src/client.cpp, `periodicDetectCache` and `start_client`
-- of master/mastertry/master.cpp and `LRU_handle_task` of cache/src/cache.cpp together.
use simple_distributed_cache.Client.{Client}
use simple_distributed_cache.Master.{Master}
use simple_distributed_cache.CacheServer.{CacheServer}
