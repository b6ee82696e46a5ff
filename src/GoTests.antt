-- ===== src/GoTests.antt =====
-- The cases of the gateway's own tests (service_go/config/config_test.go, service_go/handlers/
-- iris_test.go, health_test.go and model_test.go), evaluated on the definitions.
mod ConfigCases
mod HandlerCases
